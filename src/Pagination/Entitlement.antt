-- ===== src/Pagination/Entitlement.antt =====
-- internal/common/pagination/entitlement.go: one sequence of pages over several kinds of resources.
use jimm.Prelude.{
  ◌≡◌, ◌≢◌, ◌⊎◌, refl, sym, ◌∙◌, String, Bool, true, false, Option, none, some, List, [], ◌∷◌, ◌==◌,
  string_eq, eq_iff, arith, if◌then◌else◌, Bool-cases, false≢true, inl, inr,
}
use jimm.Errors.{plain, wrapf, Result, ok, err, spent}
use jimm.Ofga.Names.{
  controller_kind, cloud_kind, model_kind, offer_kind, group_kind, idp_group_kind, role_kind,
}

-- comboToken
pub record ComboToken : Type 0 where
  pub kind : String
  pub openfga_token : String

-- What encoding/json and encoding/base64 do with one.
pub record Codec : Type 0 where
  pub marshal : ComboToken → Result String
  pub unmarshal : String → Result ComboToken

-- A text that was written is not empty and is read back.
pub record CodecLaws (K : Codec) : Type 0 where
  pub read_back :
      (c : ComboToken) (t : String)
      → K.marshal c ≡ ok t
      → (K.unmarshal t ≡ ok c) × ((t == "") ≡ false)

unfoldable pub entitlement_resources : List String
entitlement_resources =
    controller_kind ∷ cloud_kind ∷ model_kind ∷ offer_kind ∷ group_kind ∷ idp_group_kind ∷ role_kind
    ∷ []

-- What stands after an entry; `none` where the list does not have it.
unfoldable pub next_after : String → List String → Option (Option String)
next_after kind [] = none
next_after kind (k ∷ []) = if k == kind then some none else none
next_after kind (k ∷ j ∷ ks) =
    let rest = next_after kind (j ∷ ks) in if k == kind then some (some j) else rest

module _ (K : Codec) where
  unfoldable pub marshal_token : ComboToken → Result String
  marshal_token c =
      if c.kind == ""
      then err (plain "marshal entitlement token: kind not specified")
      else K.marshal c

  abbrev pub decoded : Result ComboToken → Result (String × String)
  decoded (ok c) = ok (c.openfga_token, c.kind)
  decoded (err e) = err (wrapf "failed to decode pagination token" e)
  decoded spent = spent

  unfoldable pub decode_entitlement_token : String → Result (String × String)
  unfolding wrapf
  decode_entitlement_token token =
      if token == "" then ok ("", controller_kind) else decoded (K.unmarshal token)

  abbrev pub encoded : Result String → Result String
  encoded (err e) = err (wrapf "failed to generate next entitlement token" e)
  encoded r = r

  abbrev pub after_kind : Option (Option String) → Result String
  after_kind none =
      err (plain "failed to generate next entitlement token: unable to determine next resource")
  after_kind (some none) = ok ""
  after_kind (some (some kind)) =
      encoded (marshal_token (record { kind = kind; openfga_token = "" }))

  unfoldable pub next_entitlement_token : String → String → Result String
  unfolding marshal_token next_after entitlement_resources wrapf
  next_entitlement_token kind token =
      if token == ""
      then after_kind (next_after kind entitlement_resources)
      else encoded (marshal_token (record { kind = kind; openfga_token = token }))

encoded-ok : (K : Codec) (r : Result String) (t : String) → encoded K r ≡ ok t → r ≡ ok t
encoded-ok K (ok a) t e = e
encoded-ok K (err x) t e = absurd (cc e)
encoded-ok K spent t e = e

marshal_token-ok :
    (K : Codec) (c : ComboToken) (t : String) → marshal_token K c ≡ ok t → K.marshal c ≡ ok t
unfolding marshal_token
marshal_token-ok K c t e = go (c.kind == "") e
  where
    go :
        (b : Bool)
        → (if b then err (plain "marshal entitlement token: kind not specified") else K.marshal c)
          ≡ ok t
        → K.marshal c ≡ ok t
    go true h = absurd (cc h)
    go false h = h

module _ (K : Codec) (L : CodecLaws K) where
  pub decode-encoded :
      (c : ComboToken) (t : String)
      → encoded K (marshal_token K c) ≡ ok t
      → decode_entitlement_token K t ≡ ok (c.openfga_token, c.kind)
  unfolding decode_entitlement_token
  decode-encoded c t e =
      let (read, written) =
        L.read_back c t (marshal_token-ok K c t (encoded-ok K (marshal_token K c) t e)) in
      rw (written, read)

  decode-after_kind :
      (o : Option (Option String)) (t : String)
      → after_kind K o ≡ ok t
      → ((o ≡ some none) × (t ≡ ""))
        ⊎ ((following : String) × (o ≡ some (some following))
            × (decode_entitlement_token K t ≡ ok ("", following)))
  decode-after_kind none t e = absurd (cc e)
  decode-after_kind (some none) t e = inl (refl, ground (arith, e))
  decode-after_kind (some (some kind)) t e =
      inr (kind, refl, decode-encoded (record { kind = kind; openfga_token = "" }) t e)

  pub decode-next :
      (kind token t : String)
      → next_entitlement_token K kind token ≡ ok t
      → ((token ≢ "") × (decode_entitlement_token K t ≡ ok (token, kind)))
        ⊎ ((token ≡ "") × (next_after kind entitlement_resources ≡ some none) × (t ≡ ""))
        ⊎ ((token ≡ "")
            × ((following : String) × (next_after kind entitlement_resources
                  ≡ some (some following))
                × (decode_entitlement_token K t ≡ ok ("", following))))
  unfolding next_entitlement_token
  decode-next kind token t e = elim (Bool-cases (token == "")) [
    | inl last ↦
        let rest =
          decode-after_kind (next_after kind entitlement_resources) t (ground (arith, e, last)) in
        elim rest [
          | inl (at_end, empty) ↦ inr (inl ((eq_iff token "").0 last, at_end, empty))
          | inr following ↦ inr (inr ((eq_iff token "").0 last, following))
        ]
    | inr more ↦ inl (
      λ same. false≢true (sym more ∙ (eq_iff token "").1 same),
      decode-encoded (record { kind = kind; openfga_token = token }) t (ground (arith, e, more)),
    )
  ]
