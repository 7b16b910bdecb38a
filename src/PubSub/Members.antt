-- ===== src/PubSub/Members.antt =====
-- Membership in lists that a test has filtered.
use mathlib.Core.List.{Memᴰ}
use mathlib.Core.List.Memᴰ.{head, tail}
use jimm.Prelude.{
  ◌≡◌, refl, sym, ap, ◌∙◌, Bool, true, false, List, [], ◌∷◌, select, if◌then◌else◌, ◌⊎◌, inl, inr,
}

module _ {ℓ} {A : Type ℓ} where
  pub Mem-if_tail :
      {a : A} (b : Bool) (y : A) (ys : List A) → Memᴰ a ys → Memᴰ a (if b then y ∷ ys else ys)
  Mem-if_tail true y ys m = tail m
  Mem-if_tail false y ys m = m

  pub Mem-if_head :
      {a : A} (b : Bool) (y : A) (ys : List A)
      → b ≡ true
      → a ≡ y
      → Memᴰ a (if b then y ∷ ys else ys)
  Mem-if_head true y ys q e = head e
  Mem-if_head false y ys q e = absurd (cc q)

  pub if-Mem :
      {a : A} (b : Bool) (y : A) (ys : List A)
      → Memᴰ a (if b then y ∷ ys else ys)
      → ((b ≡ true) × (a ≡ y)) ⊎ Memᴰ a ys
  if-Mem true y ys (head e) = inl (refl, e)
  if-Mem true y ys (tail m) = inr m
  if-Mem false y ys m = inr m

  pub select-Mem :
      (p : A → Bool) (a : A) (xs : List A) → p a ≡ true → Memᴰ a xs → Memᴰ a (select p xs)
  unfolding select
  select-Mem p a [] q m = elim m [ ]
  select-Mem p a (x ∷ xs) q (head e) = Mem-if_head (p x) x (select p xs) (ap p (sym e) ∙ q) e
  select-Mem p a (x ∷ xs) q (tail m) = Mem-if_tail (p x) x (select p xs) (select-Mem p a xs q m)

  pub Mem-select :
      (p : A → Bool) (a : A) (xs : List A) → Memᴰ a (select p xs) → Memᴰ a xs × (p a ≡ true)
  unfolding select
  Mem-select p a [] m = elim m [ ]
  Mem-select p a (x ∷ xs) m = elim (if-Mem (p x) x (select p xs) m) [
    | inl (q, e) ↦ (head e, ap p e ∙ q)
    | inr n ↦ let (kept, q) = Mem-select p a xs n in (tail kept, q)
  ]
