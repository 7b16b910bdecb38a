-- ===== src/Exec/Batches.antt =====
-- The loop `for i := 0; i < len(xs); i += size`, whose body is given `xs[i:min(i+size, len(xs))]`.
use jimm.Prelude.{
  ℕ, zero, suc, ◌≤◌, ◌<◌, ◌≡◌, refl, ap, ◌∙◌, List, [], ◌∷◌, ◌++◌, arith, length, take, drop,
  take-append-drop,
}

-- The batches in order; the fuel bounds their number.
unfoldable pub batches {ℓ} : {A : Type ℓ} → ℕ → ℕ → List A → List (List A)
batches fuel size [] = []
batches zero size (x ∷ xs) = []
batches (suc fuel) size (x ∷ xs) = take size (x ∷ xs) ∷ batches fuel size (drop size (x ∷ xs))

abbrev pub concat {ℓ} : {A : Type ℓ} → List (List A) → List A
concat [] = []
concat (b ∷ bs) = b ++ concat bs

length-drop-le {ℓ} : {A : Type ℓ} (n : ℕ) (xs : List A) → length (drop n xs) ≤ length xs
length-drop-le zero xs = omega arith
length-drop-le (suc n) [] = omega arith
length-drop-le (suc n) (x ∷ xs) = omega (arith, length-drop-le n xs)

length-drop_less {ℓ} :
    {A : Type ℓ} (n : ℕ) (x : A) (xs : List A) → 0 < n → length (drop n (x ∷ xs)) ≤ length xs
length-drop_less zero x xs h = absurd (omega (arith, h))
length-drop_less (suc n) x xs h = length-drop-le n xs

-- With a positive size and as much fuel as there are entries, the batches make up the whole list.
pub concat-batches {ℓ} :
    {A : Type ℓ} (fuel size : ℕ) (xs : List A)
    → 0 < size
    → length xs ≤ fuel
    → concat (batches fuel size xs) ≡ xs
unfolding batches
concat-batches zero size [] pos h = refl
concat-batches (suc fuel) size [] pos h = refl
concat-batches zero size (x ∷ xs) pos h = absurd (omega (arith, h))
concat-batches (suc fuel) size (x ∷ xs) pos h =
    ap (λ ys. take size (x ∷ xs) ++ ys)
      (concat-batches fuel size (drop size (x ∷ xs)) pos
        (omega (arith, h, length-drop_less size x xs pos)))
    ∙ take-append-drop size (x ∷ xs)
