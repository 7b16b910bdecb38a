-- ===== src/User/Groups.antt =====
-- internal/openfga/user.go: the contextual tuples of a user in few groups with valid identifiers.
use jimm.Prelude.{◌≡◌, ◌≤◌, refl, String, true, false, List, [], ◌∷◌, map, All, length, ltb, arith}
use jimm.Errors.{ok}
use jimm.IdPGroup.{is_valid_idp_group_id}
use jimm.User.{User, membership, group_tuples, contextual_tuples, max_contextual_tuples}

abbrev pub Valid : String → Type 0
Valid group = is_valid_idp_group_id group ≡ true

group_tuples-map :
    (u : User) (groups : List String)
    → All Valid groups
    → group_tuples u groups ≡ ok (map (membership u) groups)
unfolding group_tuples
group_tuples-map u [] v = refl
group_tuples-map u (g ∷ groups) (v, vs) = rw (group_tuples-map u groups vs, v) refl

pub contextual_tuples-map :
    (u : User)
    → length u.idp_group_ids ≤ max_contextual_tuples
    → All Valid u.idp_group_ids
    → contextual_tuples u ≡ ok (map (membership u) u.idp_group_ids)
unfolding contextual_tuples
contextual_tuples-map u few valid =
    let fits : ltb max_contextual_tuples (length u.idp_group_ids) ≡ false = ground (arith, few) in
    rw (fits) (group_tuples-map u u.idp_group_ids valid)
