-- ===== src/Prelude/Equality.antt =====
-- Boolean equality as an interface: Go's `==` on strings, numbers, optional values and structs.
use Prim.Native.Nat.{ℕ, compare, Ordering}
use Prim.Native.String.{String}
use mathlib.Core.Path.{◌≡◌, refl, ap}
use mathlib.Core.Logic.{◌↔◌, ◌≢◌}
use mathlib.Core.Bool.{Bool, true, false}
use mathlib.Core.Option.{Option, none, some}
use native.Mathlib.Omega.{arith}
use text.Mathlib.Text.{◌==◌ as str_eq}
use text.Mathlib.TextEquality.{eq_iff}

abbrev pub nat_beq : ℕ → ℕ → Bool
nat_beq m n = elim (compare m n) [ Ordering.eq ↦ true | _ ↦ false ]

pub nat_beq_iff : (m n : ℕ) → (nat_beq m n ≡ true) ↔ (m ≡ n)
nat_beq_iff m n = (λ h. ground arith, λ h. ground arith)

-- A type whose values the program compares with `==`.
pub record Comparable {ℓ} (T : Type ℓ) : Type ℓ where
  pub same : T → T → Bool
  pub same_iff : (x y : T) → (same x y ≡ true) ↔ (x ≡ y)

instance abbrev pub nat_eq : Comparable ℕ
nat_eq = record { same = nat_beq; same_iff = nat_beq_iff }

instance abbrev pub string_eq : Comparable String
string_eq = record { same = str_eq; same_iff = eq_iff }

module _ {ℓ} {T : Type ℓ} ⦃c : Comparable T⦄ where
  infix 50 ◌==◌
  abbrev pub ◌==◌ : T → T → Bool
  x == y = c.same x y

module _ {ℓ} {A : Type ℓ} ⦃e : Comparable A⦄ where
  abbrev pub option_beq : Option A → Option A → Bool
  option_beq none none = true
  option_beq none (some b) = false
  option_beq (some a) none = false
  option_beq (some a) (some b) = a == b

  pub option_beq_iff : (a b : Option A) → (option_beq a b ≡ true) ↔ (a ≡ b)
  option_beq_iff none none = (λ _. refl, λ _. refl)
  option_beq_iff none (some b) = (λ h. cc, λ h. cc)
  option_beq_iff (some a) none = (λ h. cc, λ h. cc)
  option_beq_iff (some a) (some b) =
      (λ h. ap some ((e.same_iff a b).0 h), λ h. (e.same_iff a b).1 (cc))

  instance abbrev pub option_eq : Comparable (Option A)
  option_eq = record { same = option_beq; same_iff = option_beq_iff }

  pub ==_refl : (a : A) → (a == a) ≡ true
  ==_refl a = (e.same_iff a a).1 refl

  pub ==_apart : (a b : A) → a ≢ b → (a == b) ≡ false
  ==_apart a b h = go (a == b) refl
    where
      go : (t : Bool) → (a == b) ≡ t → t ≡ false
      go true q = absurd (h ((e.same_iff a b).0 q))
      go false q = refl
