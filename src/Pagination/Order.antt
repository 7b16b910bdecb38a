-- ===== src/Pagination/Order.antt =====
-- internal/common/pagination/entitlement.go: the order in which the tokens lead over the kinds of resources.
use jimm.Prelude.{
  ◌≡◌, ◌≢◌, ◌⊎◌, inl, inr, refl, sym, ap, ◌∙◌, String, true, false, Option, none, some, List, [],
  ◌∷◌, ◌++◌, ◌==◌, string_eq, eq_iff, ==_refl, ==_apart, elem, elem-append, arith, if◌then◌else◌,
  Bool-cases, false≢true,
}
use jimm.Errors.{Result, ok, err, spent}
use jimm.Pagination.Entitlement.{
  ComboToken, Codec, CodecLaws, entitlement_resources, next_after, marshal_token, encoded,
  after_kind, decode_entitlement_token, next_entitlement_token, decode-encoded,
}

-- The order that is meant.
abbrev kinds : List String
kinds = "controller" ∷ "cloud" ∷ "model" ∷ "applicationoffer" ∷ "group" ∷ "idpgroup" ∷ "role" ∷ []

-- A kind stands directly before another one.
abbrev FollowsIn : List String → String → String → Type 0
FollowsIn ks kind next =
    (before : List String) × (after : List String) × (ks ≡ before ++ kind ∷ next ∷ after)

abbrev LastIn : List String → String → Type 0
LastIn ks kind = (before : List String) × (ks ≡ before ++ kind ∷ [])

-- The place of a kind in a list, and what is found after it.
abbrev Found : List String → String → Option (Option String) → Type 0
Found ks kind none = elem kind ks ≡ false
Found ks kind (some none) = LastIn ks kind
Found ks kind (some (some next)) = FollowsIn ks kind next

Found-cons :
    (k kind : String) (ks : List String) (o : Option (Option String))
    → (k == kind) ≡ false
    → Found ks kind o
    → Found (k ∷ ks) kind o
Found-cons k kind ks none q f =
    ground (arith, f, ==_apart kind k (λ e. false≢true (sym q ∙ (eq_iff k kind).1 (sym e))))
Found-cons k kind ks (some none) q (before, e) = (k ∷ before, ap (λ xs. k ∷ xs) e)
Found-cons k kind ks (some (some next)) q (before, after, e) =
    (k ∷ before, after, ap (λ xs. k ∷ xs) e)

next_after-Found : (kind : String) (ks : List String) → Found ks kind (next_after kind ks)
unfolding next_after
next_after-Found kind [] = refl
next_after-Found kind (k ∷ []) =
    elim (k == kind)
        as (λ b. (k == kind) ≡ b → Found (k ∷ []) kind (if b then some none else none)) [
          | true ↦ λ q. ([], ap (λ x. x ∷ []) ((eq_iff k kind).0 q))
          | false ↦ λ q. Found-cons k kind [] none q refl
        ]
      refl
next_after-Found kind (k ∷ j ∷ ks) =
    elim (k == kind)
        as (λ b.
          (k == kind) ≡ b
          → Found (k ∷ j ∷ ks) kind (if b then some (some j) else next_after kind (j ∷ ks))) [
            | true ↦ λ q. ([], ks, ap (λ x. x ∷ j ∷ ks) ((eq_iff k kind).0 q))
            | false ↦ λ q.
                Found-cons k kind (j ∷ ks) (next_after kind (j ∷ ks)) q
                  (next_after-Found kind (j ∷ ks))
          ]
      refl

-- A kind that follows another is not the empty text.
follows_named : (kind next : String) → FollowsIn kinds kind next → next ≢ ""
follows_named kind next (before, after, e) empty =
    let listed : elem next kinds ≡ true =
      ap (elem next) e
      ∙ ground (arith, elem-append next before (kind ∷ next ∷ after), ==_refl next) in
    false≢true (ap (λ x. elem x kinds) (sym empty) ∙ listed)

-- What a token stands for that is made from the kind and the OpenFGA token of a page: more pages of the
-- kind, or the first page of the kind after it.
pub data Continues (kind token : String) : ComboToken → Type 0 where
  more :
      token ≢ "" → kind ≢ "" → Continues kind token (record { kind = kind; openfga_token = token })
  following :
      (next : String)
      → token ≡ ""
      → FollowsIn kinds kind next
      → Continues kind token (record { kind = next; openfga_token = "" })

-- What making it comes to.
pub data NextPage (K : Codec) (kind token : String) (r : Result String) : Type 0 where
  continued :
      (c : ComboToken) (t : String)
      → Continues kind token c
      → r ≡ ok t
      → decode_entitlement_token K t ≡ ok (c.openfga_token, c.kind)
      → NextPage K kind token r
  unwritten :
      (c : ComboToken)
      → Continues kind token c
      → ((t : String) → K.marshal c ≢ ok t)
      → ((t : String) → r ≢ ok t)
      → NextPage K kind token r
  finished : token ≡ "" → LastIn kinds kind → r ≡ ok "" → NextPage K kind token r
  unlisted :
      token ≡ "" → elem kind kinds ≡ false → ((t : String) → r ≢ ok t) → NextPage K kind token r
  unnamed : token ≢ "" → kind ≡ "" → ((t : String) → r ≢ ok t) → NextPage K kind token r

Continues-named : (kind token : String) (c : ComboToken) → Continues kind token c → c.kind ≢ ""
Continues-named kind token c (more t k) = k
Continues-named kind token c (following next t f) = follows_named kind next f

module _ (K : Codec) (L : CodecLaws K) (kind token : String) where
  marshal-NextPage :
      (c : ComboToken)
      → Continues kind token c
      → NextPage K kind token (encoded K (marshal_token K c))
  unfolding marshal_token
  marshal-NextPage c h = go (K.marshal c) refl
    where
      plain_marshal : marshal_token K c ≡ K.marshal c
      plain_marshal = ground (arith, ==_apart c.kind "" (Continues-named kind token c h))

      go :
          (r : Result String)
          → K.marshal c ≡ r
          → NextPage K kind token (encoded K (marshal_token K c))
      go (ok t) e =
          let made : encoded K (marshal_token K c) ≡ ok t = ap (encoded K) (plain_marshal ∙ e) in
          continued c t h made (decode-encoded K L c t made)
      go (err x) e =
          unwritten c h (λ t q. cc (sym e ∙ q))
            (λ t q. cc (sym (ap (encoded K) (plain_marshal ∙ e)) ∙ q))
      go spent e =
          unwritten c h (λ t q. cc (sym e ∙ q))
            (λ t q. cc (sym (ap (encoded K) (plain_marshal ∙ e)) ∙ q))

  after_kind-NextPage :
      (o : Option (Option String))
      → token ≡ ""
      → Found kinds kind o
      → NextPage K kind token (after_kind K o)
  after_kind-NextPage none e f = unlisted e f (λ t. cc)
  after_kind-NextPage (some none) e f = finished e f refl
  after_kind-NextPage (some (some next)) e f = marshal-NextPage _ (following next e f)

  more-NextPage :
      token ≢ ""
      → ((kind == "") ≡ true) ⊎ ((kind == "") ≡ false)
      → NextPage K kind token
          (encoded K (marshal_token K (record { kind = kind; openfga_token = token })))
  unfolding marshal_token
  more-NextPage h (inl e) = unnamed h ((eq_iff kind "").0 e) (λ t. ground (arith, e))
  more-NextPage h (inr d) =
      marshal-NextPage _ (more h (λ e. false≢true (sym d ∙ (eq_iff kind "").1 e)))

  next-NextPage : NextPage K kind token (next_entitlement_token K kind token)
  unfolding next_entitlement_token entitlement_resources
  next-NextPage =
      elim (token == "")
          as (λ b.
            (token == "") ≡ b
            → NextPage K kind token (
                if b
                then after_kind K (next_after kind entitlement_resources)
                else encoded K (marshal_token K (record { kind = kind; openfga_token = token })))) [
                  | true ↦ λ q.
                      after_kind-NextPage _ ((eq_iff token "").0 q) (next_after-Found kind kinds)
                  | false ↦ λ q.
                      more-NextPage (λ e. false≢true (sym q ∙ (eq_iff token "").1 e))
                        (Bool-cases (kind == ""))
                ]
        refl

-- The empty token stands for the first page of controllers. For the kind and the OpenFGA token of
-- any page, a token that NextEntitlementToken makes is decoded to the page that is to be read next:
-- of the same kind where OpenFGA has more pages, and otherwise the first page of the kind after it in
-- the order of controllers, clouds, models, application offers, groups, external groups and roles. It
-- makes one unless the encoding of just that page fails; after the last page of roles the token is
-- the empty one, and it is an error that a kind is empty or, where OpenFGA has no more pages, that it
-- is not one of these.
pub entitlement_pages :
    (K : Codec) (L : CodecLaws K) (kind token : String)
    → (decode_entitlement_token K "" ≡ ok ("", "controller"))
      × NextPage K kind token (next_entitlement_token K kind token)
unfolding decode_entitlement_token
entitlement_pages K L kind token = (refl, next-NextPage K L kind token)
