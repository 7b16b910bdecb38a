-- ===== src/Access/Permissions/Tests.antt =====
-- CheckPermission on the server in memory.
use jimm.Prelude.{refl, String, none, some, List, [], ◌∷◌, itoa}
use jimm.Errors.{Value, string_value, Result, ok}
use jimm.Ofga.Names.{JujuTag, convert_tag, writer_relation}
use jimm.Ofga.Tuples.{Tuple}
use jimm.Ofga.Memory.{memory}
use jimm.Ofga.Memory.Batches.{memory_batches}
use jimm.User.{User, new_user, user_tuple}
use jimm.Access.Permissions.{Cache, Answer, returned, check_permission}
use jimm.Access.Permissions.Sound.{Honest, check_permission_sound}

-- every tag is one of a model
abbrev as_model : String → Result JujuTag
as_model key = ok (record { kind = "model"; id = key })

abbrev alice : User
alice = new_user "alice@canonical.com"

abbrev store : List Tuple
store = user_tuple alice (record { kind = "model"; id = "m1" }) writer_relation ∷ []

abbrev before : Cache
before = some (("m0", "read") ∷ [])

abbrev wanted : List (String × Value)
wanted = ("m0", string_value "write") ∷ ("m1", string_value "write") ∷ []

abbrev after : Answer
after = returned (some (("m1", "write") ∷ ("m0", "read") ∷ [])) none

check_permission_sound_example : Honest memory as_model alice store before after
unfolding check_permission itoa convert_tag
check_permission_sound_example =
    check_permission_sound memory memory_batches as_model alice before wanted store store after refl
