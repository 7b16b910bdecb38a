-- ===== src/Auth/Groups.antt =====
-- internal/auth/auth.go: the groups in a claim, from a text, a list of texts or a list of values.
use Prim.Native.Char.{code}
use jimm.Prelude.{
  ℕ, ◌≡◌, refl, String, Bool, true, false, ◌||◌, ◌&&◌, Option, none, some, List, [], ◌∷◌, leb, ltb,
  length, ◌==◌, nat_eq, string_eq, if◌then◌else◌,
}
use jimm.Errors.{
  Value, string_value, other_value, plain, codef, code_unauthorized, Result, ok, err, spent,
}
use jimm.IdPGroup.{push}
use jimm.Auth.{ClaimValue, text, texts, values, other_claim}

abbrev pub idp_group_limit : ℕ
idp_group_limit = 20

-- unicode.IsSpace
unfoldable is_space : ℕ → Bool
is_space c =
    (leb 9 c && leb c 13)
    || (c == 32)
    || (c == 0x85)
    || (c == 0xa0)
    || (c == 0x1680)
    || (leb 0x2000 c && leb c 0x200a)
    || (c == 0x2028)
    || (c == 0x2029)
    || (c == 0x202f)
    || (c == 0x205f)
    || (c == 0x3000)

-- strings.TrimSpace
unfoldable trim_left : String → String
unfolding is_space
trim_left String.[] = ""
trim_left (String.◌∷◌ c s) =
    let rest = trim_left s in if is_space (code c) then rest else String.◌∷◌ c s

unfoldable trim_right : String → String
unfolding is_space
trim_right String.[] = ""
trim_right (String.◌∷◌ c s) =
    let rest = trim_right s in if is_space (code c) && (rest == "") then "" else String.◌∷◌ c rest

-- strings.ReplaceAll(s, ",", " ")
unfoldable spaced : String → String
spaced String.[] = ""
spaced (String.◌∷◌ c s) =
    let rest = spaced s in if code c == b',' then String.◌∷◌ " " rest else String.◌∷◌ c rest

abbrev starts_word : String → Bool
starts_word String.[] = false
starts_word (String.◌∷◌ c s) = if is_space (code c) then false else true

-- strings.Fields
unfoldable fields : String → List String
unfolding is_space
fields String.[] = []
fields (String.◌∷◌ c s) =
    let rest = fields s in
    if is_space (code c)
    then rest
    else if starts_word s
    then push c rest
    else String.◌∷◌ c "" ∷ rest

unfoldable pub split_group_claim_string : String → List String
unfolding trim_left trim_right spaced fields
split_group_claim_string value =
    let trimmed = trim_left (trim_right value) in
    if trimmed == "" then [] else fields (spaced trimmed)

-- A []any all of whose entries are texts.
unfoldable pub entries_as_texts : List Value → Result (List String)
entries_as_texts [] = ok []
entries_as_texts (string_value s ∷ vs) = elim (entries_as_texts vs) [
  | ok ss ↦ ok (s ∷ ss)
  | err e ↦ err e
  | spent ↦ spent
]
entries_as_texts (other_value ∷ vs) = err (plain "invalid group claim entry type")

-- The type switch of extractGroupsFromAccessToken
unfoldable pub claimed_groups : ClaimValue → Result (List String)
unfolding split_group_claim_string entries_as_texts
claimed_groups (text s) = ok (split_group_claim_string s)
claimed_groups (texts ss) = ok ss
claimed_groups (values vs) = entries_as_texts vs
claimed_groups other_claim = err (plain "invalid group claim type")

abbrev pub within_limit : Result (List String) → Result (List String)
within_limit (ok groups) =
    if ltb idp_group_limit (length groups)
    then err (codef code_unauthorized "authorization denied: too many IDP groups in claim")
    else ok groups
within_limit (err e) = err e
within_limit spent = spent

-- sessionGroupsFromValue; a missing entry is nil.
unfoldable pub session_groups_from_value : Option ClaimValue → Result (List String)
unfolding entries_as_texts
session_groups_from_value none = ok []
session_groups_from_value (some (texts ss)) = ok ss
session_groups_from_value (some (values vs)) = entries_as_texts vs
session_groups_from_value (some (text s)) = err (plain "invalid session groups type")
session_groups_from_value (some other_claim) = err (plain "invalid session groups type")

-- The groups claim of a session token
unfoldable pub token_groups : Option ClaimValue → Result (List String)
unfolding entries_as_texts
token_groups none = ok []
token_groups (some (values vs)) = entries_as_texts vs
token_groups (some (texts ss)) = err (plain "invalid claim type")
token_groups (some (text s)) = err (plain "invalid claim type")
token_groups (some other_claim) = err (plain "invalid claim type")

split_claims :
    (split_group_claim_string "team-a" ≡ "team-a" ∷ [])
    × (split_group_claim_string " team-a, team-b " ≡ "team-a" ∷ "team-b" ∷ [])
    × (split_group_claim_string "a b,,c" ≡ "a" ∷ "b" ∷ "c" ∷ [])
    × (split_group_claim_string "  " ≡ [])
unfolding split_group_claim_string
split_claims = (refl, refl, refl, refl)
