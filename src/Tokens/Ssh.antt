-- ===== src/Tokens/Ssh.antt =====
-- internal/jimm/jujuauth/sshtokens.go: tokens for SSH connections to Juju controllers.
use jimm.Prelude.{String, [], some, put}
use jimm.Exec.{Exec}
use jimm.Ofga.Names.{JujuTag}
use jimm.Ofga.Server.{Server}
use jimm.Tokens.{Services}

abbrev ssh_public_key_claim : String
ssh_public_key_claim = "ssh_public_key"

-- SSHTokenArgs; the key is a text of its bytes.
pub record SshTokenArgs : Type 0 where
  pub user : String
  pub controller_uuid : String
  pub model_tag : JujuTag
  pub public_key : String

-- NewSSHToken; base64's StdEncoding is a parameter.
unfoldable pub new_ssh_token :
    (V : Server) → Services V → (String → String) → SshTokenArgs → Exec V.State String
new_ssh_token V T encode_base64 args = T.new_jwt (record {
  controller = args.controller_uuid;
  user = args.user;
  access = some (put (T.tag_text args.model_tag) "admin" []);
  extra_claims = put ssh_public_key_claim (encode_base64 args.public_key) [];
})
