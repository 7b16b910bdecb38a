-- ===== src/Ofga/Names.antt =====
-- internal/openfga/names/names.go: kinds, relations, and the conversions from Juju's tags and words.
use jimm.Prelude.{String, ◌&&◌, List, [], ◌∷◌, ◌==◌, string_eq, elem, if◌then◌else◌}
use jimm.Errors.{plain, Result, ok, err}

-- cofga.Entity, as names.Tag: "kind:id#relation"
pub record Tag : Type 0 where
  pub kind : String
  pub id : String
  pub relation : String

-- the tag kinds of juju/names and pkg/names
abbrev pub user_kind : String
user_kind = "user"

abbrev pub group_kind : String
group_kind = "group"

abbrev pub idp_group_kind : String
idp_group_kind = "idpgroup"

abbrev pub role_kind : String
role_kind = "role"

abbrev pub controller_kind : String
controller_kind = "controller"

abbrev pub model_kind : String
model_kind = "model"

abbrev pub offer_kind : String
offer_kind = "applicationoffer"

abbrev pub cloud_kind : String
cloud_kind = "cloud"

abbrev pub member_relation : String
member_relation = "member"

abbrev pub assignee_relation : String
assignee_relation = "assignee"

abbrev pub administrator_relation : String
administrator_relation = "administrator"

abbrev pub controller_relation : String
controller_relation = "controller"

abbrev pub model_relation : String
model_relation = "model"

abbrev pub consumer_relation : String
consumer_relation = "consumer"

abbrev pub reader_relation : String
reader_relation = "reader"

abbrev pub writer_relation : String
writer_relation = "writer"

abbrev pub can_addmodel_relation : String
can_addmodel_relation = "can_addmodel"

abbrev pub audit_log_viewer_relation : String
audit_log_viewer_relation = "audit_log_viewer"

abbrev pub no_relation : String
no_relation = ""

abbrev pub everyone_user : String
everyone_user = "everyone@external"

-- A juju names.Tag: its Kind() and Id().
pub record JujuTag : Type 0 where
  pub kind : String
  pub id : String

-- ConvertGenericTag; ConvertTag calls it after a conversion of types.
unfoldable pub convert_tag : JujuTag → Tag
convert_tag t = record {
  kind = t.kind;
  id = if t.kind == user_kind && t.id == everyone_user then "*" else t.id;
  relation = "";
}

unfoldable pub convert_tag_with_relation : JujuTag → String → Tag
unfolding convert_tag
convert_tag_with_relation t relation = record (convert_tag t) { relation = relation }

abbrev pub known_kinds : List String
known_kinds =
    user_kind ∷ group_kind ∷ idp_group_kind ∷ role_kind ∷ controller_kind ∷ model_kind ∷ offer_kind
    ∷ cloud_kind ∷ []

unfoldable pub blank_kind_tag : String → Result Tag
blank_kind_tag kind =
    if elem kind known_kinds
    then ok (record { kind = kind; id = ""; relation = "" })
    else err (plain "unknown tag kind")

-- the words of juju/core/permission are the literals
unfoldable pub convert_juju_relation : String → Result String
convert_juju_relation relation =
    if relation == "admin"
    then ok administrator_relation
    else if relation == "read"
    then ok reader_relation
    else if relation == "write"
    then ok writer_relation
    else if relation == "consume"
    then ok consumer_relation
    else if relation == "add-model"
    then ok can_addmodel_relation
    else if relation == "login"
    then err (plain "login access unused")
    else if relation == "superuser"
    then err (plain "superuser access unused")
    else err (plain "unknown relation")

abbrev pub parsed_relations : List String
parsed_relations =
    no_relation ∷ controller_relation ∷ model_relation ∷ member_relation ∷ administrator_relation
    ∷ consumer_relation ∷ reader_relation ∷ writer_relation ∷ can_addmodel_relation
    ∷ audit_log_viewer_relation ∷ assignee_relation ∷ []

-- Every case of the switch returns the relation that it tests for.
unfoldable pub parse_relation : String → Result String
parse_relation relation =
    if elem relation parsed_relations then ok relation else err (plain "unknown relation")
