-- ===== src/Exec/Rules.antt =====
-- Rules for what holds after an action: one case for each way in which its first part can end.
use jimm.Prelude.{◌≡◌, ◌≢◌, refl, ap}
use jimm.Errors.{Error, Result, ok, err, spent}
use jimm.Exec.{Exec, continue, ◌>>=◌}

pub ok-injective {ℓ} : {A : Type ℓ} {a b : A} → ok a ≡ ok b → a ≡ b
ok-injective {A = A} {a} {b} e = ap (λ r. ok_or a r) e
  where
    ok_or : A → Result A → A
    ok_or d (ok x) = x
    ok_or d (err x) = d
    ok_or d spent = d

module _ {ℓ κ} {S : Type 0} {A : Type ℓ} where
  -- the ways in which an action can end
  pub run-cases :
      (P : Result A × S → Type κ) (m : Exec S A) (s : S)
      → ((a : A) (s' : S) → m s ≡ (ok a, s') → P (ok a, s'))
      → ((e : Error) (s' : S) → m s ≡ (err e, s') → P (err e, s'))
      → ((s' : S) → m s ≡ (spent, s') → P (spent, s'))
      → P (m s)
  run-cases P m s good bad out = go (m s).0 refl
    where
      go : (r : Result A) → (m s).0 ≡ r → P (r, (m s).1)
      go (ok a) e = good a (m s).1 (λ i. (e i, (m s).1))
      go (err x) e = bad x (m s).1 (λ i. (e i, (m s).1))
      go spent e = out (m s).1 (λ i. (e i, (m s).1))

module _ {ℓ ℓ' κ} {S : Type 0} {A : Type ℓ} {B : Type ℓ'} where
  pub >>=-cases :
      (P : Result B × S → Type κ) (m : Exec S A) (f : A → Exec S B) (s : S)
      → ((a : A) (s' : S) → m s ≡ (ok a, s') → P (f a s'))
      → ((e : Error) (s' : S) → m s ≡ (err e, s') → P (err e, s'))
      → ((s' : S) → m s ≡ (spent, s') → P (spent, s'))
      → P ((m >>= f) s)
  >>=-cases P m f s = run-cases (λ r. P (continue f r.0 r.1)) m s

module _ {ℓ ℓ'} {S : Type 0} {A : Type ℓ} {B : Type ℓ'} where
  -- A sequence that returns has run both its parts.
  pub >>=-eq-ok :
      (m : Exec S A) (f : A → Exec S B) (s s' : S) (b : B)
      → (m >>= f) s ≡ (ok b, s')
      → (a : A) × (s1 : S) × (m s ≡ (ok a, s1)) × (f a s1 ≡ (ok b, s'))
  >>=-eq-ok m f s s' b =
      >>=-cases
        (λ r. r ≡ (ok b, s') → (a : A) × (s1 : S) × (m s ≡ (ok a, s1)) × (f a s1 ≡ (ok b, s'))) m f
        s (λ a s1 e h. (a, s1, e, h)) (λ x s1 e h. absurd (cc (ap (λ q. q.0) h)))
        (λ s1 e h. absurd (cc (ap (λ q. q.0) h)))

  -- It runs out of fuel only where a part does.
  pub >>=-ends :
      (m : Exec S A) (f : A → Exec S B) (s : S)
      → (m s).0 ≢ spent
      → ((a : A) (s1 : S) → m s ≡ (ok a, s1) → (f a s1).0 ≢ spent)
      → ((m >>= f) s).0 ≢ spent
  >>=-ends m f s first rest =
      >>=-cases (λ r. r.0 ≢ spent) m f s rest (λ x s1 e h. cc) (λ s1 e h. first (ap (λ q. q.0) e))
