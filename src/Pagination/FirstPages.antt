-- ===== src/Pagination/FirstPages.antt =====
-- A codec of entitlement tokens for the tests.
use jimm.Prelude.{
  ◌≡◌, refl, sym, ap, ◌∙◌, String, Bool, true, false, not, ◌&&◌, ◌==◌, string_eq, eq_iff, arith,
  if◌then◌else◌,
}
use jimm.Errors.{plain, ok, err}
use jimm.Pagination.Entitlement.{Codec, CodecLaws}

-- It writes the tokens of first pages only, as their kinds.
abbrev pub first_pages : Codec
first_pages = record {
  marshal = λ c.
      if c.openfga_token == "" && not (c.kind == "")
      then ok c.kind
      else err (plain "not a first page");
  unmarshal = λ t. ok (record { kind = t; openfga_token = "" });
}

-- What is written is the kind of a first page.
written :
    (b d : Bool) (k t : String)
    → (if b && not d then ok k else err (plain "not a first page")) ≡ ok t
    → (b ≡ true) × (d ≡ false) × (k ≡ t)
written true true k t e = absurd (cc e)
written false d k t e = absurd (cc e)
written true false k t e = (refl, refl, ground (arith, e))

pub first_pages_laws : CodecLaws first_pages
first_pages_laws = record {
  read_back = λ c t e.
      let (b, d, k) = written (c.openfga_token == "") (c.kind == "") c.kind t e in
      (
        λ i.
            ok (record { kind = sym k i; openfga_token = sym ((eq_iff c.openfga_token "").0 b) i }),
        ap (λ x. x == "") (sym k) ∙ d,
      );
}
