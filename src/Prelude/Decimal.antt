-- ===== src/Prelude/Decimal.antt =====
-- strconv.Itoa on the numbers that are not negative: different numbers have different texts.
use Prim.Native.Nat.{ℕ, zero, suc, ◌+◌, ◌*◌, ◌/◌, ◌%◌, ◌-◌, ◌<◌}
use Prim.Native.String.{String}
use Prim.Native.Char.{Char, code}
use mathlib.Core.Path.{◌≡◌, refl, sym, ap, ◌∙◌}
use mathlib.Core.Logic.{inl, inr}
use native.Mathlib.Omega.{arith}
use jimm.Prelude.Equality.{◌==◌, nat_eq, nat_beq_iff}
use jimm.Prelude.Tests.{if◌then◌else◌, Bool-cases}

digit : ℕ → Char
digit d =
    if d == 0
    then "0"
    else if d == 1
    then "1"
    else if d == 2
    then "2"
    else if d == 3
    then "3"
    else if d == 4
    then "4"
    else if d == 5
    then "5"
    else if d == 6
    then "6"
    else if d == 7
    then "7"
    else if d == 8
    then "8"
    else "9"

-- The digits of `n` before `acc`, the last one first.
digits : ℕ → ℕ → String → String
unfolding digit
digits zero n acc = acc
digits (suc f) n acc =
    let more = digits f (n / 10) (String.◌∷◌ (digit (n % 10)) acc) in
    if n / 10 == 0 then String.◌∷◌ (digit (n % 10)) acc else more

unfoldable pub itoa : ℕ → String
unfolding digits
itoa n = digits (suc n) n ""

-- The number that a text of digits stands for, after the digits of `n`.
value : ℕ → String → ℕ
value n String.[] = n
value n (String.◌∷◌ c s) = value (n * 10 + (code c - 48)) s

code-digit : (d : ℕ) → d < 10 → code (digit d) - 48 ≡ d
unfolding digit
code-digit zero h = refl
code-digit (suc zero) h = refl
code-digit (suc (suc zero)) h = refl
code-digit (suc (suc (suc zero))) h = refl
code-digit (suc (suc (suc (suc zero)))) h = refl
code-digit (suc (suc (suc (suc (suc zero))))) h = refl
code-digit (suc (suc (suc (suc (suc (suc zero)))))) h = refl
code-digit (suc (suc (suc (suc (suc (suc (suc zero))))))) h = refl
code-digit (suc (suc (suc (suc (suc (suc (suc (suc zero)))))))) h = refl
code-digit (suc (suc (suc (suc (suc (suc (suc (suc (suc zero))))))))) h = refl
code-digit (suc (suc (suc (suc (suc (suc (suc (suc (suc (suc n)))))))))) h =
    absurd (omega (arith, h))

value-digits : (f n : ℕ) (acc : String) → n < f → value 0 (digits f n acc) ≡ value n acc
unfolding value digits
value-digits zero n acc h = absurd (omega (arith, h))
value-digits (suc f) n acc h = elim (Bool-cases (n / 10 == 0)) [
  | inl last ↦ rw last (
      ap (λ k. value k acc)
        (omega (arith, code-digit (n % 10) (omega arith), (nat_beq_iff (n / 10) 0).0 last)))
  | inr more ↦ rw more (
      value-digits f (n / 10) (String.◌∷◌ (digit (n % 10)) acc) (ground (arith, h, more))
      ∙ ap (λ k. value k acc) (omega (arith, code-digit (n % 10) (omega arith))))
]

pub itoa-injective : (m n : ℕ) → itoa m ≡ itoa n → m ≡ n
unfolding itoa value
itoa-injective m n e =
    sym (value-digits (suc m) m "" (omega arith))
    ∙ ap (value 0) e
    ∙ value-digits (suc n) n "" (omega arith)
