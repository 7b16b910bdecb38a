-- ===== src/Exec/Triples.antt =====
-- Actions that keep an invariant of the state, and what the values that they return satisfy.
use jimm.Prelude.{◌≡◌, refl, Bool, true, false, if◌then◌else◌}
use jimm.Errors.{Error, Result, ok, err, spent}
use jimm.Exec.{Exec, pure, raise, lift, attempt, continue, ◌>>=◌}

-- What a result satisfies when it is a value.
abbrev pub Good : {A : Type 0} → (A → Type 0) → Result A → Type 0
Good Q (ok a) = Q a
Good Q (err e) = Unit
Good Q spent = Unit

-- From a state in the invariant the action ends in one, and a value that it returns is good.
pub record Keeps {S A : Type 0} (P : S → Type 0) (m : Exec S A) (Q : A → Type 0) : Type 0 where
  pub kept : (s : S) → P s → P (m s).1 × Good Q (m s).0

abbrev pub Any : {A : Type 0} → A → Type 0
Any a = Unit

pub Good-Any : {A : Type 0} (r : Result A) → Good Any r
Good-Any (ok a) = tt
Good-Any (err e) = tt
Good-Any spent = tt

module _ {S A : Type 0} {P : S → Type 0} {Q : A → Type 0} where
  pub pure-Keeps : (a : A) → Q a → Keeps P (pure a) Q
  pure-Keeps a q = record { kept = λ s p. (p, q) }

  pub raise-Keeps : (e : Error) → Keeps P (raise e) Q
  raise-Keeps e = record { kept = λ s p. (p, tt) }

  pub lift-Keeps : (r : Result A) → Good Q r → Keeps P (lift r) Q
  lift-Keeps r g = record { kept = λ s p. (p, g) }

  -- An action whose error is tested: its value is good where there is one.
  pub attempt-Keeps : {m : Exec S A} → Keeps P m Q → Keeps P (attempt m) (Good Q)
  attempt-Keeps k = record { kept = λ s p. k.kept s p }

  pub forget-Keeps : {m : Exec S A} → Keeps P m Q → Keeps P m Any
  forget-Keeps {m} k = record { kept = λ s p. ((k.kept s p).0, Good-Any (m s).0) }

  -- An action whose invariant and value are known.
  pub known-Keeps :
      (m : Exec S A)
      → ((s : S) → P s → P (m s).1)
      → ((a : A) (s : S) → P s → (m s).0 ≡ ok a → Q a)
      → Keeps P m Q
  known-Keeps m keeps good = record { kept = λ s p. (keeps s p, go s p (m s).0 refl) }
    where
      go : (s : S) → P s → (r : Result A) → (m s).0 ≡ r → Good Q r
      go s p (ok a) e = good a s p e
      go s p (err x) e = tt
      go s p spent e = tt

  -- Either branch, with what its test has found.
  pub if-Keeps :
      {m n : Exec S A} (b : Bool)
      → (b ≡ true → Keeps P m Q)
      → (b ≡ false → Keeps P n Q)
      → Keeps P (if b then m else n) Q
  if-Keeps true then_kept else_kept = then_kept refl
  if-Keeps false then_kept else_kept = else_kept refl

module _ {S A : Type 0} {P : S → Type 0} where
  pub result-Keeps : (r : Result A) → Keeps P (lift r) (λ a. r ≡ ok a)
  result-Keeps (ok a) = lift-Keeps (ok a) refl
  result-Keeps (err x) = lift-Keeps (err x) tt
  result-Keeps spent = lift-Keeps spent tt

  pub silent-Keeps : (m : Exec S A) → ((s : S) → P s → P (m s).1) → Keeps P m Any
  silent-Keeps m keeps = known-Keeps m keeps (λ a s p e. tt)

module _ {S A B : Type 0} {P : S → Type 0} {R : B → Type 0} where
  -- One part after the other.
  pub >>=-Keeps :
      {Q : A → Type 0} {m : Exec S A} {f : A → Exec S B}
      → Keeps P m Q
      → ((a : A) → Q a → Keeps P (f a) R)
      → Keeps P (m >>= f) R
  >>=-Keeps {Q} {m} {f} first rest = record {
    kept = λ s p. go (m s).0 (m s).1 (first.kept s p).0 (first.kept s p).1;
  }
    where
      go :
          (r : Result A) (s1 : S)
          → P s1
          → Good Q r
          → P (continue f r s1).1 × Good R (continue f r s1).0
      go (ok a) s1 p1 q = (rest a q).kept s1 p1
      go (err x) s1 p1 q = (p1, tt)
      go spent s1 p1 q = (p1, tt)
