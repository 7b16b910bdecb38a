-- ===== src/Access/Permissions/Sound.antt =====
-- Only permissions that the authorization model grants enter the map of CheckPermission.
use jimm.Prelude.{
  ◌≡◌, ◌⊎◌, inl, inr, refl, sym, ap, ◌∙◌, ℕ, suc, ◌<◌, String, Bool, true, false, Option, none,
  some, List, [], ◌∷◌, All, elem, find, put, itoa, itoa-injective, arith, eq_iff, ◌==◌, string_eq,
  Bool-cases, false≢true, subst, if◌then◌else◌,
}
use jimm.Errors.{plain, Value, string_value, other_value, Result, ok, err, spent}
use jimm.Exec.Rules.{ok-injective}
use jimm.Ofga.Names.{JujuTag, convert_juju_relation}
use jimm.Ofga.Tuples.{Tuple}
use jimm.Ofga.Server.{Server, ids, NoRepeat, Answers, BatchLaws}
use jimm.Ofga.Batch.{batch_check_relations_exact}
use jimm.Ofga.Client.{batch_check_relations}
use jimm.User.{User, user_tuple, contextual_tuples}
use jimm.Access.Permissions.{
  Cache, lookup, PermissionCheck, Answer, returned, panicked, Collected, checks, not_a_string,
  refused, collect_one, collect_key, collect, batch_from, permitted, allowed_answer, add_allowed,
  add_to_nil, add_answers, check_with, check_collected, check_permission,
}

-- A check that was read from the desired permissions.
pub record Read (parse_tag : String → Result JujuTag) (c : PermissionCheck) : Type 0 where
  pub parsed : parse_tag c.key ≡ ok c.tag
  pub converted : convert_juju_relation c.value ≡ ok c.relation

abbrev AllRead : (String → Result JujuTag) → Collected → Type 0
AllRead p (checks cs) = All (Read p) cs
AllRead p (not_a_string e) = Unit
AllRead p (refused e) = Unit

collect_one-AllRead :
    (p : String → Result JujuTag) (key value : String) (t : Result JujuTag) (r : Result String)
    (rest : Collected)
    → p key ≡ t
    → convert_juju_relation value ≡ r
    → AllRead p rest
    → AllRead p (collect_one key value t r rest)
collect_one-AllRead p key value (err e) r rest a b h = tt
collect_one-AllRead p key value spent r rest a b h = h
collect_one-AllRead p key value (ok tag) (err e) rest a b h = tt
collect_one-AllRead p key value (ok tag) spent rest a b h = h
collect_one-AllRead p key value (ok tag) (ok relation) (checks cs) a b h =
    (record { parsed = a; converted = b }, h)
collect_one-AllRead p key value (ok tag) (ok relation) (not_a_string e) a b h = tt
collect_one-AllRead p key value (ok tag) (ok relation) (refused e) a b h = tt

collect_key-AllRead :
    (p : String → Result JujuTag) (key : String) (k : Option String) (v : Value) (rest : Collected)
    → AllRead p rest
    → AllRead p (collect_key p key k v rest)
unfolding collect_key
collect_key-AllRead p key (some w) v rest h = h
collect_key-AllRead p key none other_value rest h = tt
collect_key-AllRead p key none (string_value s) rest h =
    collect_one-AllRead p key s (p key) (convert_juju_relation s) rest refl refl h

collect-AllRead :
    (p : String → Result JujuTag) (cache : Cache) (desired : List (String × Value))
    → AllRead p (collect p cache desired)
unfolding collect
collect-AllRead p cache [] = tt
collect-AllRead p cache ((key, v) ∷ desired) =
    collect_key-AllRead p key (lookup key cache) v (collect p cache desired)
      (collect-AllRead p cache desired)

==_false : (x y : String) → (x == y) ≡ false → (y == x) ≡ false
==_false x y h = elim (Bool-cases (y == x)) [
  | inl same ↦ absurd (false≢true (sym h ∙ (eq_iff x y).1 (sym ((eq_iff y x).0 same))))
  | inr other ↦ other
]

-- The ids of a batch differ.
batch_from-later :
    (u : User) (ctx : List Tuple) (n m : ℕ) (cs : List PermissionCheck)
    → n < m
    → elem (itoa n) (ids (batch_from u ctx m cs)) ≡ false
unfolding batch_from
batch_from-later u ctx n m [] h = refl
batch_from-later u ctx n m (c ∷ cs) h =
    let rest = batch_from-later u ctx n (suc m) cs (omega (arith, h)) in
    elim (Bool-cases (itoa m == itoa n)) [
      | inl same ↦ absurd (omega (arith, h, itoa-injective m n ((eq_iff (itoa m) (itoa n)).0 same)))
      | inr other ↦ ground (arith, rest, ==_false (itoa m) (itoa n) other)
    ]

batch_from-NoRepeat :
    (u : User) (ctx : List Tuple) (n : ℕ) (cs : List PermissionCheck)
    → NoRepeat (ids (batch_from u ctx n cs))
unfolding batch_from
batch_from-NoRepeat u ctx n [] = tt
batch_from-NoRepeat u ctx n (c ∷ cs) =
    (batch_from-later u ctx n (suc n) cs (omega arith), batch_from-NoRepeat u ctx (suc n) cs)

module _ (V : Server) (p : String → Result JujuTag) (user : User) (stored : List Tuple) where
  -- A key and a word for which the authorization model has the user hold the relation.
  pub record Granted (key value : String) : Type 0 where
    pub tag : JujuTag
    pub relation : String
    pub contextual : List Tuple
    pub parsed : p key ≡ ok tag
    pub converted : convert_juju_relation value ≡ ok relation
    pub valid : contextual_tuples user ≡ ok contextual
    pub holds : V.allowed stored contextual (user_tuple user tag relation) ≡ true

  -- Each entry of the map was in the one before or is granted.
  abbrev pub Honest : Cache → Answer → Type 0
  Honest before panicked = Unit
  Honest before (returned after e) =
      (key value : String)
      → lookup key after ≡ some value
      → (lookup key before ≡ some value) ⊎ Granted key value

  put-Honest :
      (c : PermissionCheck) (m : List (String × String)) (a : Answer)
      → Granted c.key c.value
      → Honest (some (put c.key c.value m)) a
      → Honest (some m) a
  unfolding find
  put-Honest c m panicked g h = tt
  put-Honest c m (returned after e) g h = λ key value f. elim (h key value f) [
    | inr granted ↦ inr granted
    | inl there ↦ elim (Bool-cases (c.key == key)) [
      | inr other ↦ inl (ground (arith, there, other))
      | inl same ↦
          let k : c.key ≡ key = (eq_iff c.key key).0 same in
          let v : c.value ≡ value = ground (arith, there, same) in
          inr (subst (λ x. Granted x value) k (subst (Granted c.key) v g))
    ]
  ]

  allowed_answer-eq :
      (id : String) (results : List (String × Bool)) (b : Bool)
      → find id results ≡ some b
      → allowed_answer id results ≡ b
  unfolding allowed_answer
  allowed_answer-eq id results b e = ap permitted e

  abbrev chosen :
      List (String × Bool)
      → ℕ
      → PermissionCheck
      → List PermissionCheck
      → List (String × String)
      → Bool
      → Answer
  chosen results n c cs m b =
      if b
      then add_allowed results (suc n) cs (put c.key c.value m)
      else returned (some m) (some (plain "missing permission"))

  chosen-Honest :
      (ctx : List Tuple) (results : List (String × Bool)) (n : ℕ) (c : PermissionCheck)
      (cs : List PermissionCheck) (m : List (String × String))
      → contextual_tuples user ≡ ok ctx
      → Read p c
      → Honest (some (put c.key c.value m)) (add_allowed results (suc n) cs (put c.key c.value m))
      → (b : Bool) → V.allowed stored ctx (user_tuple user c.tag c.relation) ≡ b
      → Honest (some m) (chosen results n c cs m b)
  chosen-Honest ctx results n c cs m valid r h true e =
      put-Honest c m (add_allowed results (suc n) cs (put c.key c.value m))
        (record {
          tag = c.tag;
          relation = c.relation;
          contextual = ctx;
          parsed = r.parsed;
          converted = r.converted;
          valid = valid;
          holds = e;
        })
        h
  chosen-Honest ctx results n c cs m valid r h false e = λ key value f. inl f

  add_allowed-Honest :
      (ctx : List Tuple) (results : List (String × Bool)) (n : ℕ) (cs : List PermissionCheck)
      (m : List (String × String))
      → contextual_tuples user ≡ ok ctx
      → All (Read p) cs
      → All (Answers V stored results) (batch_from user ctx n cs)
      → Honest (some m) (add_allowed results n cs m)
  unfolding add_allowed batch_from
  add_allowed-Honest ctx results n [] m valid r a = λ key value f. inl f
  add_allowed-Honest ctx results n (c ∷ cs) m valid r a =
      subst (λ b. Honest (some m) (chosen results n c cs m b))
        (sym (allowed_answer-eq (itoa n) results _ a.0))
        (chosen-Honest ctx results n c cs m valid r.0
          (add_allowed-Honest ctx results (suc n) cs (put c.key c.value m) valid r.1 a.1)
          (V.allowed stored ctx (user_tuple user c.tag c.relation)) refl)

  -- nothing is added to a nil map
  nil-Honest : (results : List (String × Bool)) → Honest none (add_to_nil results)
  unfolding add_to_nil
  nil-Honest results =
      elim (allowed_answer (itoa 0) results)
        as (λ b.
          Honest none (if b then panicked else returned none (some (plain "missing permission")))) [
            | true ↦ tt
            | false ↦ λ key value f. inl f
          ]

  add_answers-Honest :
      (ctx : List Tuple) (cache : Cache) (cs : List PermissionCheck)
      (r : Result (List (String × Bool))) (s s' : V.State) (answer : Answer)
      → contextual_tuples user ≡ ok ctx
      → All (Read p) cs
      → ((results : List (String × Bool))
          → r ≡ ok results
          → All (Answers V stored results) (batch_from user ctx 0 cs))
      → add_answers V cache cs r s ≡ (ok answer, s')
      → Honest cache answer
  add_answers-Honest ctx cache cs (err e) s s' answer valid r h d =
      subst (Honest cache) (ok-injective (ap (λ q. q.0) d)) (λ key value f. inl f)
  add_answers-Honest ctx cache cs spent s s' answer valid r h d = absurd (cc (ap (λ q. q.0) d))
  add_answers-Honest ctx none cs (ok results) s s' answer valid r h d =
      subst (Honest none) (ok-injective (ap (λ q. q.0) d)) (nil-Honest results)
  add_answers-Honest ctx (some m) cs (ok results) s s' answer valid r h d =
      subst (Honest (some m)) (ok-injective (ap (λ q. q.0) d))
        (add_allowed-Honest ctx results 0 cs m valid r (h results refl))

module _ (V : Server) (B : BatchLaws V) (p : String → Result JujuTag) (user : User) where
  check_with-Honest :
      (cache : Cache) (cs : List PermissionCheck) (r : Result (List Tuple)) (s s' : V.State)
      (answer : Answer)
      → contextual_tuples user ≡ r
      → All (Read p) cs
      → check_with V cache user cs r s ≡ (ok answer, s')
      → Honest V p user (V.tuples s) cache answer
  check_with-Honest cache cs (err e) s s' answer valid r d =
      subst (Honest V p user (V.tuples s) cache) (ok-injective (ap (λ q. q.0) d))
        (λ key value f. inl f)
  check_with-Honest cache cs spent s s' answer valid r d = absurd (cc (ap (λ q. q.0) d))
  check_with-Honest cache cs (ok ctx) s s' answer valid r d =
      let items = batch_from user ctx 0 cs in
      let (results, after) = batch_check_relations V items s in
      add_answers-Honest V p user (V.tuples s) ctx cache cs results after s' answer valid r
        (λ answers e.
          (batch_check_relations_exact V B items s after answers (λ i. (e i, after))
            (batch_from-NoRepeat user ctx 0 cs)).0)
        d

  check_collected-Honest :
      (cache : Cache) (c : Collected) (s s' : V.State) (answer : Answer)
      → AllRead p c
      → check_collected V cache user c s ≡ (ok answer, s')
      → Honest V p user (V.tuples s) cache answer
  check_collected-Honest cache (not_a_string e) s s' answer r d =
      subst (Honest V p user (V.tuples s) cache) (ok-injective (ap (λ q. q.0) d))
        (λ key value f. absurd (cc f))
  check_collected-Honest cache (refused e) s s' answer r d =
      subst (Honest V p user (V.tuples s) cache) (ok-injective (ap (λ q. q.0) d))
        (λ key value f. inl f)
  check_collected-Honest cache (checks []) s s' answer r d =
      subst (Honest V p user (V.tuples s) cache) (ok-injective (ap (λ q. q.0) d))
        (λ key value f. inl f)
  check_collected-Honest cache (checks (c ∷ cs)) s s' answer r d =
      check_with-Honest cache (c ∷ cs) (contextual_tuples user) s s' answer refl r d

  -- Whatever is asked for, in whatever order, and also where an error is returned: each entry of the
  -- map that CheckPermission returns was in the map that it was given, or its word names a relation
  -- that the authorization model grants the user on the entity that its key names.
  pub check_permission_sound :
      (cache : Cache) (desired : List (String × Value)) (s s' : V.State) (answer : Answer)
      → check_permission V p user cache desired s ≡ (ok answer, s')
      → Honest V p user (V.tuples s) cache answer
  unfolding check_permission
  check_permission_sound cache desired s s' answer d =
      check_collected-Honest cache (collect p cache desired) s s' answer
        (collect-AllRead p cache desired) d
