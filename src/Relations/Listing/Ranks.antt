-- ===== src/Relations/Listing/Ranks.antt =====
-- internal/common/pagination/entitlement.go: the kinds that are left after one, and that making and reading
-- tokens comes to an end.
use jimm.Prelude.{
  ℕ, suc, ◌≤◌, ◌≡◌, ◌≢◌, inl, inr, refl, sym, ap, ◌∙◌, String, Bool, true, false, Option, none,
  some, List, [], ◌∷◌, length, ◌==◌, string_eq, nat_eq, arith, Bool-cases, if◌then◌else◌, elem,
  ==_refl, ==_apart, false≢true,
}
use jimm.Errors.{plain, Result, ok, err, spent}
use jimm.Ofga.Names.{
  controller_kind, cloud_kind, model_kind, offer_kind, group_kind, idp_group_kind, role_kind,
}
use jimm.Ofga.Server.{NoRepeat}
use jimm.Pagination.Entitlement.{
  Codec, ComboToken, marshal_token, decoded, encoded, after_kind, decode_entitlement_token,
  next_entitlement_token, next_after, entitlement_resources,
}

-- How many kinds follow one in the list.
unfoldable following : String → List String → ℕ
following kind [] = 0
following kind (k ∷ ks) = let rest = following kind ks in if k == kind then length ks else rest

unfoldable pub rank : String → ℕ
unfolding following
rank kind = following kind entitlement_resources

-- The kind that comes next stands in the list after the first one.
next_after-elem :
    (kind next k : String) (ks : List String)
    → next_after kind (k ∷ ks) ≡ some (some next)
    → elem next ks ≡ true
unfolding next_after
next_after-elem kind next k [] e = absurd (ground (arith, e))
next_after-elem kind next k (j ∷ ks) e = elim (Bool-cases (k == kind)) [
  | inl here ↦ ground (arith, e, here, ==_refl next)
  | inr there ↦ ground (arith, next_after-elem kind next j ks (ground (arith, e, there)))
]

next_after-following :
    (kind next k : String) (ks : List String)
    → NoRepeat (k ∷ ks)
    → next_after kind (k ∷ ks) ≡ some (some next)
    → suc (following next (k ∷ ks)) ≤ following kind (k ∷ ks)
unfolding next_after following
next_after-following kind next k [] distinct e = absurd (ground (arith, e))
next_after-following kind next k (j ∷ ks) (fresh, distinct) e =
    let later : elem next (j ∷ ks) ≡ true = next_after-elem kind next k (j ∷ ks) e in
    let apart : (k == next) ≡ false =
      ==_apart k next (λ q. false≢true (sym fresh ∙ ap (λ x. elem x (j ∷ ks)) q ∙ later)) in
    elim (Bool-cases (k == kind)) [
      | inl here ↦ ground (arith, e, here, apart)
      | inr there ↦ ground (
        arith,
        there,
        apart,
        next_after-following kind next j ks distinct (ground (arith, e, there)),
      )
    ]

pub next-rank :
    (kind next : String)
    → next_after kind entitlement_resources ≡ some (some next)
    → suc (rank next) ≤ rank kind
unfolding entitlement_resources rank
next-rank kind next e =
    next_after-following kind next controller_kind
      (cloud_kind ∷ model_kind ∷ offer_kind ∷ group_kind ∷ idp_group_kind ∷ role_kind ∷ [])
      (refl, (refl, (refl, (refl, (refl, (refl, (refl, tt))))))) e

pub rank-le : (kind : String) → rank kind ≤ 6
unfolding entitlement_resources following rank
rank-le kind = ground arith

-- Reading and writing texts of tokens comes to an end.
pub record CodecEnds (K : Codec) : Type 0 where
  pub marshal_ends : (c : ComboToken) → K.marshal c ≢ spent
  pub unmarshal_ends : (t : String) → K.unmarshal t ≢ spent

module _ (K : Codec) (E : CodecEnds K) where
  pub decode_ends : (token : String) → decode_entitlement_token K token ≢ spent
  unfolding decode_entitlement_token
  decode_ends token e = go (token == "") (K.unmarshal token) (E.unmarshal_ends token) e
    where
      go :
          (b : Bool) (r : Result ComboToken)
          → r ≢ spent
          → (if b then ok ("", controller_kind) else decoded K r) ≢ spent
      go true r h z = cc z
      go false (ok c) h z = cc z
      go false (err x) h z = cc z
      go false spent h z = h refl

  encoded_ends : (c : ComboToken) → encoded K (marshal_token K c) ≢ spent
  unfolding marshal_token
  encoded_ends c = go (c.kind == "") (K.marshal c) (E.marshal_ends c)
    where
      go :
          (b : Bool) (r : Result String)
          → r ≢ spent
          → encoded K (if b then err (plain "marshal entitlement token: kind not specified") else r)
            ≢ spent
      go true r h z = cc z
      go false (ok c) h z = cc z
      go false (err x) h z = cc z
      go false spent h z = h refl

  pub next_ends : (kind more : String) → next_entitlement_token K kind more ≢ spent
  unfolding next_entitlement_token
  next_ends kind more = go (more == "") (next_after kind entitlement_resources)
    where
      go :
          (b : Bool) (o : Option (Option String))
          → (if b
              then after_kind K o
              else encoded K (marshal_token K (record { kind = kind; openfga_token = more })))
            ≢ spent
      go true none z = cc z
      go true (some none) z = cc z
      go true (some (some k)) z = encoded_ends (record { kind = k; openfga_token = "" }) z
      go false o z = encoded_ends (record { kind = kind; openfga_token = more }) z
