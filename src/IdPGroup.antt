-- ===== src/IdPGroup.antt =====
-- pkg/names/idp_group.go: which texts identify a group of an external identity provider.
use Prim.Native.Char.{Char, code}
use jimm.Prelude.{
  ◌≡◌, refl, String, Bool, true, false, not, ◌||◌, List, [], ◌∷◌, ltb, length, ◌==◌, nat_eq,
  string_eq, if◌then◌else◌,
}

-- A character before the first part.
abbrev pub push : Char → List String → List String
push c [] = String.◌∷◌ c "" ∷ []
push c (part ∷ parts) = String.◌∷◌ c part ∷ parts

-- strings.Split(id, "#")
unfoldable pub split_hash : String → List String
split_hash String.[] = "" ∷ []
split_hash (String.◌∷◌ c s) =
    let parts = split_hash s in if code c == b'#' then "" ∷ parts else push c parts

abbrev pub first_part : List String → String
first_part [] = ""
first_part (p ∷ ps) = p

abbrev pub second_part : List String → String
second_part [] = ""
second_part (p ∷ ps) = first_part ps

unfoldable pub is_valid_idp_group_id : String → Bool
unfolding split_hash
is_valid_idp_group_id id =
    let parts = split_hash id in
    if id == ""
    then false
    else if ltb 2 (length parts)
    then false
    else if first_part parts == ""
    then false
    else length parts == 1 || not (second_part parts == "")

valid_ids :
    (is_valid_idp_group_id "admins" ≡ true)
    × (is_valid_idp_group_id "org#admins" ≡ true)
    × (is_valid_idp_group_id "org#" ≡ false)
    × (is_valid_idp_group_id "#a" ≡ false)
    × (is_valid_idp_group_id "a#b#c" ≡ false)
    × (is_valid_idp_group_id "" ≡ false)
unfolding is_valid_idp_group_id
valid_ids = (refl, refl, refl, refl, refl, refl)
