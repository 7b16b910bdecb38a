-- ===== src/Exec.antt =====
-- Actions on a state that may fail: the state that an action leaves comes back on every path.
pub mod Batches
pub mod Rules
pub mod Triples
use jimm.Errors.{Error, Result, ok, err, spent}

abbrev pub Exec {ℓ} : Type 0 → Type ℓ → Type ℓ
Exec S A = S → Result A × S

module _ {ℓ} {S : Type 0} {A : Type ℓ} where
  abbrev pub pure : A → Exec S A
  pure a s = (ok a, s)

  abbrev pub raise : Error → Exec S A
  raise e s = (err e, s)

  abbrev pub lift : Result A → Exec S A
  lift r s = (r, s)

  -- the fuel of a loop ran out
  abbrev pub give_up : Exec S A
  give_up s = (spent, s)

  -- a Go call whose error is tested before it is passed on
  abbrev pub attempt : Exec S A → Exec S (Result A)
  attempt m s = let (r, s') = m s in (ok r, s')

module _ {ℓ κ} {S : Type 0} {A : Type ℓ} {B : Type κ} where
  abbrev pub continue : (A → Exec S B) → Result A → Exec S B
  continue f (ok a) s = f a s
  continue f (err e) s = (err e, s)
  continue f spent s = (spent, s)

  infixl 5 ◌>>=◌
  abbrev pub ◌>>=◌ : Exec S A → (A → Exec S B) → Exec S B
  ◌>>=◌ m f s = let (r, s') = m s in continue f r s'

module _ {ℓ} {S : Type 0} {B : Type ℓ} where
  infixl 5 ◌>>◌
  abbrev pub ◌>>◌ : Exec S (Unit {0}) → Exec S B → Exec S B
  m >> k = m >>= λ _. k
