-- ===== src/Prelude/Select.antt =====
-- The sublist of the entries that pass a Boolean test, and what removing a part of it leaves.
use Prim.Native.Nat.{◌≤◌, ◌<◌}
use mathlib.Core.Path.{◌≡◌, refl, sym, ap, ◌∙◌}
use mathlib.Core.Logic.{◌≢◌, inl, inr}
use mathlib.Core.Bool.{Bool, true, false, not, ◌&&◌}
use mathlib.Core.List.{List, [], ◌∷◌, ◌++◌}
use native.Mathlib.Omega.{arith}
use jimm.Prelude.Equality.{Comparable, ◌==◌}
use jimm.Prelude.Tests.{if◌then◌else◌, Bool-cases}
use jimm.Prelude.Lists.{length, elem}

module _ {ℓ} {A : Type ℓ} where
  unfoldable pub select : (A → Bool) → List A → List A
  select p [] = []
  select p (x ∷ xs) = let rest = select p xs in if p x then x ∷ rest else rest

  pub select-select :
      (p q : A → Bool) (xs : List A) → select p (select q xs) ≡ select (λ x. q x && p x) xs
  unfolding select
  select-select p q [] = refl
  select-select p q (x ∷ xs) = ground (arith, select-select p q xs)

  pub select_congr :
      (p q : A → Bool) → ((x : A) → p x ≡ q x) → (xs : List A) → select p xs ≡ select q xs
  unfolding select
  select_congr p q h [] = refl
  select_congr p q h (x ∷ xs) = ground (arith, h x, select_congr p q h xs)

  pub length-select-le : (p : A → Bool) (xs : List A) → length (select p xs) ≤ length xs
  unfolding select
  length-select-le p [] = omega arith
  length-select-le p (x ∷ xs) = ground (arith, length-select-le p xs)

module _ {ℓ} {A : Type ℓ} ⦃e : Comparable A⦄ where
  -- Two tests that agree on the members select the same.
  pub select_congr_mem :
      (p q : A → Bool) (xs : List A)
      → ((x : A) → elem x xs ≡ true → p x ≡ q x)
      → select p xs ≡ select q xs
  unfolding select
  select_congr_mem p q [] h = refl
  select_congr_mem p q (x ∷ xs) h =
      let same : p x ≡ q x = h x (ground (arith, (e.same_iff x x).1 refl)) in
      let rest : select p xs ≡ select q xs =
        select_congr_mem p q xs (λ y m. h y (ground (arith, m))) in
      ground (arith, same, rest)

  pub elem-select : (p : A → Bool) (a : A) (xs : List A) → elem a (select p xs) ≡ (p a && elem a xs)
  unfolding select
  elem-select p a [] = ground arith
  elem-select p a (x ∷ xs) = elim (Bool-cases (a == x)) [
    | inl same ↦
        let same' : a ≡ x = (e.same_iff a x).0 same in
        let alike : p a ≡ p x = ap p same' in ground (arith, elem-select p a xs, alike)
    | inr other ↦ ground (arith, elem-select p a xs)
  ]

  -- What is left of `xs` when the entries of `ts` are taken out.
  abbrev pub without : List A → List A → List A
  without ts xs = select (λ x. not (elem x ts)) xs

  pub elem-without :
      (a : A) (ts xs : List A) → elem a (without ts xs) ≡ (not (elem a ts) && elem a xs)
  elem-without a ts xs = elem-select (λ x. not (elem x ts)) a xs

  -- Taking entries out that fail a test leaves what passes it.
  pub select-without :
      (p : A → Bool) (ts xs : List A)
      → ((x : A) → elem x ts ≡ true → p x ≡ false)
      → select p (without ts xs) ≡ select p xs
  select-without p ts xs h = select-select p (λ x. not (elem x ts)) xs ∙ select_congr _ p agree xs
    where
      agree : (x : A) → (not (elem x ts) && p x) ≡ p x
      agree x = elim (Bool-cases (elem x ts)) [
        | inl out ↦ ground (arith, h x out)
        | inr kept ↦ ground arith
      ]

  -- Taking out all that pass a test leaves those that fail it.
  pub without-select :
      (p : A → Bool) (xs : List A) → without (select p xs) xs ≡ select (λ x. not (p x)) xs
  without-select p xs = select_congr_mem _ _ xs (λ x m. ground (arith, elem-select p x xs, m))

  length-without-le : (ts xs : List A) → length (without ts xs) ≤ length xs
  length-without-le ts xs = length-select-le (λ x. not (elem x ts)) xs

  -- Taking out a first part that is not empty makes a list shorter.
  pub length-without_prefix :
      (ts rest : List A) → ts ≢ [] → length (without ts (ts ++ rest)) < length (ts ++ rest)
  unfolding select
  length-without_prefix [] rest h = absurd (h refl)
  length-without_prefix (t ∷ ts) rest h =
      ground (arith, (e.same_iff t t).1 refl, length-without-le (t ∷ ts) (ts ++ rest))

  -- So the selected entries grow fewer when a first part of them is taken out.
  pub length-select-without :
      (p : A → Bool) (ts rest xs : List A)
      → select p xs ≡ ts ++ rest
      → ts ≢ []
      → length (select p (without ts xs)) < length (select p xs)
  length-select-without p ts rest xs split some_out =
      let swap : select p (without ts xs) ≡ without ts (select p xs) =
        select-select p _ xs
        ∙ select_congr _ _ (λ x. ground arith) xs
        ∙ sym (select-select (λ x. not (elem x ts)) p xs) in
      rw (swap, split) (length-without_prefix ts rest some_out)

module _ {ℓ} {A : Type ℓ} where
  pub select_all : (p : A → Bool) (xs : List A) → ((x : A) → p x ≡ true) → select p xs ≡ xs
  unfolding select
  select_all p [] h = refl
  select_all p (x ∷ xs) h = ground (arith, h x, select_all p xs h)
