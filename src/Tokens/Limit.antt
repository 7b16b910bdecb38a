-- ===== src/Tokens/Limit.antt =====
-- How often a generator asserts permissions.
use jimm.Prelude.{
  ◌≡◌, refl, ◌∙◌, ℕ, suc, ◌+◌, ◌≤◌, ◌<◌, leb, String, Bool, true, false, Option, none, some, List,
  [], ◌∷◌, arith, not, ◌==◌, string_eq,
}
use jimm.Errors.{Value, Result, ok, err, spent}
use jimm.Exec.{Exec}
use jimm.Exec.Triples.{Keeps, Any, Good-Any, pure-Keeps, raise-Keeps, >>=-Keeps}
use jimm.Ofga.Names.{JujuTag}
use jimm.Ofga.Server.{Server}
use jimm.User.{User, wrapped}
use jimm.Access.{Manager}
use jimm.Access.Permissions.{Answer, returned, panicked}
use jimm.Tokens.{
  LoginTokenGenerator, new_login_token_generator, Minted, token, panic, Session, Services, get,
  modify, on_server, wrapping, need, claim, claim_clouds, login_claims, issue, set_tags,
  make_login_token, checked, assert_for, counted, make_token,
}

-- The calls of a generator that change it.
pub data Call : Type 0 where
  set : JujuTag → JujuTag → Call
  log_in : Option User → Call
  assert : Option (List (String × Value)) → Call

module _ (V : Server) (M : Manager V) (T : Services V) where
  abbrev minted : Result Minted → ℕ
  minted (ok (token t)) = 1
  minted r = 0

  abbrev after_call : Call → Session V → ℕ × Session V
  after_call (set mt ct) s = (0, (set_tags V M T mt ct s).1)
  after_call (log_in user) s = (0, (make_login_token V M T user s).1)
  after_call (assert permissions) s = let (r, t) = make_token V M T permissions s in (minted r, t)

  -- the number of tokens of MakeToken, and the session at the end
  unfoldable pub calls : List Call → Session V → ℕ × Session V
  unfolding set_tags make_login_token make_token
  calls [] s = (0, s)
  calls (c ∷ cs) s = let (n, t) = after_call c s in let (m, u) = calls cs t in (n + m, u)

  abbrev Count : ℕ → Session V → Type 0
  Count n s = s.generator.call_count ≡ n

  on_server-Keeps : (n : ℕ) {A : Type 0} (m : Exec V.State A) → Keeps (Count n) (on_server V m) Any
  unfolding on_server
  on_server-Keeps n m = record { kept = λ s p. (p, Good-Any (m s.server).0) }

  wrapping-Keeps :
      (n : ℕ) {A : Type 0} (context : String) (m : Exec V.State A)
      → Keeps (Count n) (wrapping V context m) Any
  unfolding wrapping
  wrapping-Keeps n context m = record {
    kept = λ s p. (p, Good-Any (wrapped context (m s.server).0));
  }

  get-Keeps : (n : ℕ) {A : Type 0} (f : LoginTokenGenerator → A) → Keeps (Count n) (get V f) Any
  unfolding get
  get-Keeps n f = record { kept = λ s p. (p, tt) }

  modify-Keeps :
      (n : ℕ) (f : LoginTokenGenerator → LoginTokenGenerator)
      → ((g : LoginTokenGenerator) → (f g).call_count ≡ g.call_count)
      → Keeps (Count n) (modify V f) Any
  unfolding modify
  modify-Keeps n f h = record { kept = λ s p. (h s.generator ∙ p, tt) }

  claim-Keeps :
      (n : ℕ) (tag : JujuTag) (access : String) → Keeps (Count n) (claim V M T tag access) Any
  unfolding claim
  claim-Keeps n tag access = modify-Keeps n _ (λ g. refl)

  need-Keeps : (n : ℕ) (b : Bool) (context : String) → Keeps (Count n) (need V b context) Any
  need-Keeps n true context = pure-Keeps tt tt
  need-Keeps n false context = raise-Keeps _

  issue-Keeps : (n : ℕ) (user : User) → Keeps (Count n) (issue V M T user) Any
  unfolding issue
  issue-Keeps n user = >>=-Keeps (get-Keeps n (λ g. g)) (λ g _. on_server-Keeps n _)

  clouds-Keeps :
      (n : ℕ) (user : User) (clouds : List JujuTag)
      → Keeps (Count n) (claim_clouds V M T user clouds) Any
  unfolding claim_clouds
  clouds-Keeps n user [] = pure-Keeps tt tt
  clouds-Keeps n user (c ∷ cs) =
      >>=-Keeps (wrapping-Keeps n _ _)
        (λ access _. >>=-Keeps (claim-Keeps n c access) (λ _ _. clouds-Keeps n user cs))

  login_claims-Keeps : (n : ℕ) (user : User) → Keeps (Count n) (login_claims V M T user) Any
  unfolding login_claims
  login_claims-Keeps n user = >>=-Keeps (get-Keeps n (λ g. g.mt)) (λ mt _.
      >>=-Keeps (need-Keeps n (not (mt.id == "")) _) (λ _ _. >>=-Keeps (on_server-Keeps n _) (λ a _.
        >>=-Keeps (claim-Keeps n mt a) (λ _ _. >>=-Keeps (get-Keeps n (λ g. g.ct)) (λ ct _.
          >>=-Keeps (need-Keeps n (not (ct.id == "")) _) (λ _ _.
            >>=-Keeps (on_server-Keeps n _) (λ b _.
              >>=-Keeps (claim-Keeps n ct b)
                (λ _ _. >>=-Keeps (wrapping-Keeps n _ _) (λ clouds _. clouds-Keeps n user _)))))))))

  login-Keeps : (n : ℕ) (user : Option User) → Keeps (Count n) (make_login_token V M T user) Any
  unfolding make_login_token
  login-Keeps n none = raise-Keeps _
  login-Keeps n (some user) =
      >>=-Keeps (modify-Keeps n _ (λ g. refl))
        (λ _ _. >>=-Keeps (login_claims-Keeps n user) (λ _ _. issue-Keeps n user))

  checked-Keeps : (n : ℕ) (user : User) (a : Answer) → Keeps (Count n) (checked V M T user a) Any
  checked-Keeps n user panicked = pure-Keeps _ tt
  checked-Keeps n user (returned cache (some e)) =
      >>=-Keeps (modify-Keeps n _ (λ g. refl)) (λ _ _. raise-Keeps e)
  checked-Keeps n user (returned cache none) =
      >>=-Keeps (modify-Keeps n _ (λ g. refl))
        (λ _ _. >>=-Keeps (issue-Keeps n user) (λ _ _. pure-Keeps _ tt))

  assert_for-Keeps :
      (n : ℕ) (user : Option User) (permissions : Option (List (String × Value)))
      → Keeps (Count n) (assert_for V M T user permissions) Any
  assert_for-Keeps n none permissions = raise-Keeps _
  assert_for-Keeps n (some user) none = >>=-Keeps (issue-Keeps n user) (λ _ _. pure-Keeps _ tt)
  assert_for-Keeps n (some user) (some permissions) =
      >>=-Keeps (get-Keeps n (λ g. g.access_map_cache))
        (λ cache _. >>=-Keeps (on_server-Keeps n _) (λ a _. checked-Keeps n user a))

  one-le : (r : Result Minted) → minted r ≤ 1
  one-le (ok (token t)) = omega arith
  one-le (ok panic) = omega arith
  one-le (err e) = omega arith
  one-le spent = omega arith

  not_full : (n : ℕ) → leb 10 n ≡ false → n < 10
  not_full n e = ground arith

  -- A call counts its token, and never goes beyond ten.
  abbrev Within : ℕ → ℕ × Session V → Type 0
  Within n r = (r.0 + n ≤ r.1.generator.call_count) × (n ≤ 10 → r.1.generator.call_count ≤ 10)

  counted-Within :
      (permissions : Option (List (String × Value))) (s : Session V) (b : Bool)
      → leb 10 s.generator.call_count ≡ b
      → Within s.generator.call_count (let (r, t) = counted V M T b permissions s in (minted r, t))
  unfolding modify get
  counted-Within permissions s true e = (omega arith, λ h. h)
  counted-Within permissions s false e =
      let c = suc s.generator.call_count in
      let t : Session V = record s { generator = record s.generator { call_count = c } } in
      let k = ((assert_for-Keeps c s.generator.user permissions).kept t refl).0 in
      let o = one-le (assert_for V M T s.generator.user permissions t).0 in
      (omega (arith, k, o), λ h. omega (arith, k, not_full s.generator.call_count e))

  after_call-Within : (c : Call) (s : Session V) → Within s.generator.call_count (after_call c s)
  unfolding set_tags make_token modify get
  after_call-Within (set mt ct) s = (omega arith, λ h. h)
  after_call-Within (log_in user) s =
      let k = ((login-Keeps s.generator.call_count user).kept s refl).0 in
      (omega (arith, k), λ h. omega (arith, k, h))
  after_call-Within (assert permissions) s =
      counted-Within permissions s (leb 10 s.generator.call_count) refl

  calls-Within : (cs : List Call) (s : Session V) → Within s.generator.call_count (calls cs s)
  unfolding calls
  calls-Within [] s = (omega arith, λ h. h)
  calls-Within (c ∷ cs) s =
      let one = after_call-Within c s in
      let rest = calls-Within cs (after_call c s).1 in
      (omega (arith, one.0, rest.0), λ h. rest.1 (one.1 h))

  -- In whatever order a new generator is logged in, given tags and asked to assert permissions, and
  -- whatever fails on the way, MakeToken makes ten tokens at most.
  pub make_token_limited :
      (cs : List Call) (server : V.State)
      → (calls cs (record { generator = new_login_token_generator; server = server })).0 ≤ 10
  unfolding new_login_token_generator
  make_token_limited cs server =
      let w = calls-Within cs (record { generator = new_login_token_generator; server = server }) in
      omega (arith, w.0, w.1 (omega arith))
