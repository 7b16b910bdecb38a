-- ===== src/Prelude/Maps.antt =====
-- Go maps with string keys, as association lists: a later write comes first.
use Prim.Native.String.{String}
use mathlib.Core.Path.{◌≡◌, refl}
use mathlib.Core.Option.{Option, none, some}
use mathlib.Core.List.{List, [], ◌∷◌, ◌++◌}
use native.Mathlib.Omega.{arith}
use jimm.Prelude.Equality.{◌==◌, string_eq}
use jimm.Prelude.Tests.{if◌then◌else◌}

module _ {ℓ} {V : Type ℓ} where
  unfoldable pub find : String → List (String × V) → Option V
  find k [] = none
  find k ((j, v) ∷ m) = let rest = find k m in if j == k then some v else rest

  abbrev pub put : String → V → List (String × V) → List (String × V)
  put k v m = (k, v) ∷ m

  abbrev pub or_else : Option V → Option V → Option V
  or_else (some v) o = some v
  or_else none o = o

  pub find-append :
      (k : String) (m n : List (String × V)) → find k (m ++ n) ≡ or_else (find k m) (find k n)
  unfolding find
  find-append k [] n = refl
  find-append k ((j, v) ∷ m) n = ground (arith, find-append k m n)
