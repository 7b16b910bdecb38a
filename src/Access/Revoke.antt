-- ===== src/Access/Revoke.antt =====
-- RevokeCloudAccess and RevokeModelAccess, past the caller's authorization.
use jimm.Prelude.{
  ◌<◌, ◌≤◌, ℕ, suc, ◌≡◌, ◌≢◌, refl, ap, sym, ◌∙◌, subst, String, Bool, true, false, false≢true, not,
  List, [], ◌∷◌, length, elem, ◌==◌, ==_refl, string_eq, Option, none, some, map, elem-without,
  Bool-cases, inl, inr, arith, eq_iff,
}
use jimm.Errors.{Error, Result, ok, err, spent}
use jimm.Exec.{Exec}
use jimm.Exec.Rules.{>>=-cases}
use jimm.Ofga.Names.{JujuTag, no_relation}
use jimm.Ofga.Tuples.{Tuple, tuple_eq, tuple_beq_iff}
use jimm.Ofga.Server.{Server, ReadLaws, WriteLaws, CheckLaws}
use jimm.User.{User, user_tuple, wrapping, unset_accesses}
use jimm.User.Set.{SetDone, wrapped-SetDone, set_access-SetDone}
use jimm.User.Unset.{Unset, wrapped-Unset, unset_accesses_exact}
use jimm.Access.{set_if, unset_cloud, downgrade_model}
use jimm.Access.Effect.{Revoked}
use jimm.Access.Cases.{Revokes, second}

elem-map_of :
    (f : String → Tuple) (l : String) (ls : List String)
    → elem l ls ≡ true
    → elem (f l) (map f ls) ≡ true
elem-map_of f l [] m = m
elem-map_of f l (x ∷ ls) m = elim (Bool-cases (l == x)) [
  | inl same ↦ ground (
    arith,
    ==_refl (f l),
    ap f ((eq_iff l x).0 same),
    (tuple_beq_iff (f l) (f x)).1 (ap f ((eq_iff l x).0 same)),
  )
  | inr other ↦ ground (arith, elem-map_of f l ls (ground (arith, m, other)))
]

-- What is none of the values of `f` is not in their list.
elem-map_none :
    (f : String → Tuple) (t : Tuple) (ls : List String)
    → ((l : String) → elem l ls ≡ true → t ≢ f l)
    → elem t (map f ls) ≡ false
elem-map_none f t [] h = refl
elem-map_none f t (x ∷ ls) h = elim (Bool-cases (t == f x)) [
  | inl same ↦ absurd (h x (ground (arith, ==_refl x)) ((tuple_beq_iff t (f x)).0 same))
  | inr other ↦ ground (arith, other, elem-map_none f t ls (λ l m. h l (ground (arith, m))))
]

module _ (V : Server) (u : User) (resource : JujuTag) (levels : List String)
    (before : List Tuple) where
  -- A failure that changed no tuple.
  pub failed :
      (e : Error) (s : V.State)
      → V.tuples s ≡ before
      → Revoked V u resource levels before (err e, s)
  failed e s same = record {
    ended = λ z. cc;
    gone = λ z. absurd (cc);
    kept = λ t other m. ap (elem t) same ∙ m;
  }

  -- The right tuples have gone, from a store that holds what was there before.
  Unset-Revoked :
      (rels : List String) (middle : List Tuple) (r : Result (Unit {0}) × V.State)
      → ((l : String) → elem l rels ≡ elem l levels)
      → ((t : Tuple) → elem t before ≡ true → elem t middle ≡ true)
      → Unset V (map (user_tuple u resource) rels) middle r
      → Revoked V u resource levels before r
  Unset-Revoked rels middle (ok a, s) same more h = record {
    ended = h.ended;
    gone = λ z l m.
        ap (elem (user_tuple u resource l)) (h.gone z)
        ∙ elem-without (user_tuple u resource l) (map (user_tuple u resource) rels) middle
        ∙ ground (arith, elem-map_of (user_tuple u resource) l rels (same l ∙ m));
    kept = λ t other m.
        ap (elem t) (h.gone refl)
        ∙ elem-without t (map (user_tuple u resource) rels) middle
        ∙ ground (
          arith,
          more t m,
          elem-map_none (user_tuple u resource) t rels (λ l k. other l (sym (same l) ∙ k)),
        );
  }
  Unset-Revoked rels middle (err e, s) same more h = record {
    ended = h.ended;
    gone = λ z. absurd (cc);
    kept = λ t other m. ap (elem t) (h.kept e refl) ∙ more t m;
  }
  Unset-Revoked rels middle (spent, s) same more h = absurd (h.ended refl)

-- What the optional first step does: it only adds, one tuple at most.
record Setting (V : Server) (before : List Tuple) (r : Result (Unit {0}) × V.State) : Type 0 where
  ended : r.0 ≢ spent
  more : (t : Tuple) → elem t before ≡ true → elem t (V.tuples r.1) ≡ true
  few : length (V.tuples r.1) ≤ suc (length before)
  kept : (e : Error) → r.0 ≡ err e → V.tuples r.1 ≡ before

SetDone-Setting :
    (V : Server) (t : Tuple) (before : List Tuple) (r : Result (Unit {0})) (s : V.State)
    → SetDone V t before (r, s)
    → Setting V before (r, s)
SetDone-Setting V t before (ok a) s h = record {
  ended = h.ended;
  more = λ x m. h.stored refl x ∙ ground (arith, m);
  few = h.few;
  kept = λ e z. absurd (cc);
}
SetDone-Setting V t before (err e) s h = record {
  ended = h.ended;
  more = λ x m. ap (elem x) (h.kept e refl) ∙ m;
  few = h.few;
  kept = h.kept;
}
SetDone-Setting V t before spent s h = absurd (h.ended refl)

set_if-Setting :
    (V : Server) (W : WriteLaws V) (u : User) (resource : JujuTag) (b : Bool)
    (context relation : String) (s : V.State)
    → Setting V (V.tuples s) (set_if V b context u resource relation s)
unfolding wrapping
set_if-Setting V W u resource false context relation s = record {
  ended = λ z. cc;
  more = λ t m. m;
  few = omega arith;
  kept = λ e z. refl;
}
set_if-Setting V W u resource true context relation s =
    SetDone-Setting V (user_tuple u resource relation) (V.tuples s) _ _ (
      wrapped-SetDone V context (user_tuple u resource relation) (V.tuples s) _ _
        (set_access-SetDone V W u resource relation s))

module _ (V : Server) (R : ReadLaws V) (W : WriteLaws V) (C : CheckLaws V) (fuel : ℕ) (u : User)
    (resource : JujuTag) (levels : List String) (before : List Tuple) where
  abbrev stored_level : String → Bool
  stored_level l = V.allowed before [] (user_tuple u resource l)

  -- The last step of both: the relations that the switch has chosen are unset.
  unsetting :
      (context : String) (rels : List String) (s : V.State)
      → ((l : String) → elem l rels ≡ elem l levels)
      → ((t : Tuple) → elem t before ≡ true → elem t (V.tuples s) ≡ true)
      → length (V.tuples s) < fuel
      → Revoked V u resource levels before
          (wrapping V context (unset_accesses V fuel u resource rels) s)
  unfolding wrapping
  unsetting context rels s same more enough =
      Unset-Revoked V u resource levels before rels (V.tuples s) _ same more
        (wrapped-Unset V context _ _ _ _ (unset_accesses_exact V R W fuel u resource rels s enough))

  nothing_to_do :
      (s : V.State)
      → V.tuples s ≡ before
      → ((l : String) → elem l levels ≡ true → stored_level l ≡ false)
      → Revoked V u resource levels before (ok tt, s)
  nothing_to_do s same h = record {
    ended = λ z. cc;
    gone = λ _ l m. elim (Bool-cases (elem (user_tuple u resource l) before)) [
      | inl there ↦
          absurd (false≢true (sym (h l m) ∙ C.direct before [] (user_tuple u resource l) there))
      | inr missing ↦ ap (elem (user_tuple u resource l)) same ∙ missing
    ];
    kept = λ t other m. ap (elem t) same ∙ m;
  }

  pub unset_cloud-Revoked :
      (o : Option (List String)) (s : V.State)
      → Revokes stored_level levels o
      → V.tuples s ≡ before
      → length before < fuel
      → Revoked V u resource levels before (unset_cloud V fuel u resource o s)
  unset_cloud-Revoked none s h same enough = nothing_to_do s same h
  unset_cloud-Revoked (some rels) s h same enough =
      unsetting "failed to unset cloud access" rels s h (λ t m. ap (elem t) same ∙ m)
        (rw same enough)

  pub downgrade_model-Revoked :
      (o : Option (String × List String)) (s : V.State)
      → Revokes stored_level levels (second o)
      → V.tuples s ≡ before
      → suc (length before) < fuel
      → Revoked V u resource levels before (downgrade_model V fuel u resource o s)
  downgrade_model-Revoked none s h same enough = nothing_to_do s same h
  downgrade_model-Revoked (some (relation, rels)) s h same enough =
      let m : Exec V.State (Unit {0}) =
        set_if V (not (relation == no_relation)) "failed to set model access" u resource relation in
      let one : Setting V (V.tuples s) (m s) = set_if-Setting V W u resource _ _ relation s in
      >>=-cases (Revoked V u resource levels before) m _ s
        (λ a s1 e.
          let one' : Setting V (V.tuples s) (ok a, s1) = subst (Setting V (V.tuples s)) e one in
          unsetting "failed to unset model access" rels s1 h
            (λ t k. one'.more t (ap (elem t) same ∙ k))
            (omega (arith, one'.few, ap length same, enough)))
        (λ x s1 e.
          let one' : Setting V (V.tuples s) (err x, s1) = subst (Setting V (V.tuples s)) e one in
          failed V u resource levels before x s1 (one'.kept x refl ∙ same))
        (λ s1 e. absurd (one.ended (ap (λ r. r.0) e)))
