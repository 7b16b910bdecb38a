-- ===== src/CliStore/Entries.antt =====
-- The map of the store: lookups after erasing, and after a change of a reference count.
use jimm.Prelude.{
  ℕ, zero, suc, ◌≤◌, ◌<◌, ◌≡◌, refl, sym, ap, ◌∙◌, String, true, false, false≢true, none, some,
  List, [], ◌∷◌, length, elem, ◌==◌, string_eq, nat_eq, if◌then◌else◌, arith, Bool-cases, inl, inr,
  eq_iff, nat_beq_iff,
}
use jimm.CliStore.{Binary, Entries, lookup, erase, idle, nth, change}

pub length-change :
    (f : Binary → Binary) (h : ℕ) (es : Entries) → length (change f h es) ≡ length es
unfolding change
length-change f h [] = refl
length-change f h ((url, b) ∷ es) = ap suc (length-change f h es)

pub length-erase_le : (k : String) (es : Entries) → length (erase k es) ≤ length es
unfolding erase
length-erase_le k [] = omega arith
length-erase_le k ((url, b) ∷ es) = elim (Bool-cases (url == k)) [
  | inl e ↦ rw e (omega (arith, length-erase_le k es))
  | inr e ↦ rw e (omega (arith, length-erase_le k es))
]

-- Where there is something under the url, erasing it makes room.
pub length-erase :
    (k : String) (es : Entries) (b : Binary)
    → lookup k es ≡ some b
    → length (erase k es) < length es
unfolding erase lookup
length-erase k [] b h = absurd (cc h)
length-erase k ((url, c) ∷ es) b h = elim (Bool-cases (url == k)) [
  | inl e ↦ rw e (omega (arith, length-erase_le k es))
  | inr e ↦ rw e (omega (arith, length-erase k es b (ground (arith, h, e))))
]

pub lookup-erase_other :
    (k l : String) (es : Entries) → (l == k) ≡ false → lookup l (erase k es) ≡ lookup l es
unfolding erase lookup
lookup-erase_other k l [] n = refl
lookup-erase_other k l ((url, b) ∷ es) n = elim (Bool-cases (url == k)) [
  | inl e ↦
      let apart : (url == l) ≡ false = elim (Bool-cases (url == l)) [
        | inl e' ↦
            absurd
              (false≢true (sym n ∙ (eq_iff l k).1 (sym ((eq_iff url l).0 e') ∙ (eq_iff url k).0 e)))
        | inr e' ↦ e'
      ] in
      rw (e, apart) (lookup-erase_other k l es n)
  | inr e ↦ rw (e, lookup-erase_other k l es n) refl
]

pub lookup-erase-none :
    (k l : String) (es : Entries) → lookup l es ≡ none → lookup l (erase k es) ≡ none
unfolding erase lookup
lookup-erase-none k l [] n = refl
lookup-erase-none k l ((url, b) ∷ es) n = elim (Bool-cases (url == k)) [
  | inl e ↦ rw e (lookup-erase-none k l es (ground (arith, n)))
  | inr e ↦ rw e (ground (arith, n, lookup-erase-none k l es (ground (arith, n))))
]

-- A map has one entry for each key.
unfoldable pub Distinct : Entries → Type 0
Distinct [] = Unit
Distinct ((url, b) ∷ es) = (lookup url es ≡ none) × Distinct es

pub erase-Distinct : (k : String) (es : Entries) → Distinct es → Distinct (erase k es)
unfolding erase Distinct
erase-Distinct k [] d = d
erase-Distinct k ((url, b) ∷ es) d = elim (Bool-cases (url == k)) [
  | inl e ↦ rw e (erase-Distinct k es d.1)
  | inr e ↦ rw e (lookup-erase-none k url es d.0, erase-Distinct k es d.1)
]

pub lookup-change-none :
    (f : Binary → Binary) (h : ℕ) (l : String) (es : Entries)
    → lookup l es ≡ none
    → lookup l (change f h es) ≡ none
unfolding change lookup
lookup-change-none f h l [] n = refl
lookup-change-none f h l ((url, b) ∷ es) n =
    ground (arith, n, lookup-change-none f h l es (ground (arith, n)))

pub change-Distinct :
    (f : Binary → Binary) (h : ℕ) (es : Entries) → Distinct es → Distinct (change f h es)
unfolding change Distinct
change-Distinct f h [] d = d
change-Distinct f h ((url, b) ∷ es) d =
    (lookup-change-none f h url es d.0, change-Distinct f h es d.1)

pub lookup-change :
    (f : Binary → Binary) (h : ℕ) (l : String) (es : Entries) (b : Binary)
    → lookup l es ≡ some b
    → lookup l (change f h es) ≡ some (if b.handle == h then f b else b)
unfolding change lookup
lookup-change f h l [] b n = absurd (cc n)
lookup-change f h l ((url, c) ∷ es) b n = elim (Bool-cases (url == l)) [
  | inl e ↦
      let same : c ≡ b = ground (arith, n, e) in
      rw e (ap (λ (x : Binary). some (if x.handle == h then f x else x)) same)
  | inr e ↦ rw e (lookup-change f h l es b (ground (arith, n, e)))
]

idle-none : (k : String) (es : Entries) → lookup k es ≡ none → elem k (idle es) ≡ false
unfolding idle lookup
idle-none k [] n = refl
idle-none k ((url, c) ∷ es) n = elim (Bool-cases (url == k)) [
  | inl e ↦ ground (arith, n, e)
  | inr e ↦
      let apart : (k == url) ≡ false = elim (Bool-cases (k == url)) [
        | inl e' ↦ absurd (false≢true (sym e ∙ (eq_iff url k).1 (sym ((eq_iff k url).0 e'))))
        | inr e' ↦ e'
      ] in
      ground (arith, apart, idle-none k es (ground (arith, n, e)))
]

-- What freeEntry may delete is not in use.
pub idle-lookup :
    (k : String) (es : Entries) (b : Binary)
    → Distinct es
    → elem k (idle es) ≡ true
    → lookup k es ≡ some b
    → b.reference_count ≡ 0
unfolding idle lookup Distinct
idle-lookup k [] b d m n = absurd (cc m)
idle-lookup k ((url, c) ∷ es) b d m n = elim (Bool-cases (url == k)) [
  | inl e ↦
      let same : c ≡ b = ground (arith, n, e) in
      let rest : elem k (idle es) ≡ false =
        idle-none k es (ap (λ x. lookup x es) (sym ((eq_iff url k).0 e)) ∙ d.0) in
      elim (Bool-cases (c.reference_count == 0)) [
        | inl z ↦
            ap (λ (x : Binary). x.reference_count) (sym same)
            ∙ (nat_beq_iff c.reference_count 0).0 z
        | inr z ↦ absurd (false≢true (sym rest ∙ ground (arith, m, z)))
      ]
  | inr e ↦
      let apart : (k == url) ≡ false = elim (Bool-cases (k == url)) [
        | inl e' ↦ absurd (false≢true (sym e ∙ (eq_iff url k).1 (sym ((eq_iff k url).0 e'))))
        | inr e' ↦ e'
      ] in
      idle-lookup k es b d.1 (ground (arith, m, apart)) (ground (arith, n, e))
]

pub elem-nth : (i : ℕ) (xs : List String) (k : String) → nth i xs ≡ some k → elem k xs ≡ true
unfolding nth
elem-nth i [] k h = absurd (cc h)
elem-nth zero (x ∷ xs) k h = ground (arith, (eq_iff k x).1 (ground (arith, h)))
elem-nth (suc i) (x ∷ xs) k h = ground (arith, elem-nth i xs k h)
