-- ===== src/Relations/Authorized.antt =====
-- AddRelation and RemoveRelation: nothing is written unless every tuple is authorized.
use jimm.Prelude.{
  ◌⊎◌, inl, inr, ◌≡◌, ◌≢◌, refl, sym, ap, ◌∙◌, subst, Bool, true, false, Option, none, some, List,
  [], ◌∷◌, elem, ◌==◌, Bool-cases, arith, string_eq,
}
use jimm.Errors.{Result, ok, err, spent}
use jimm.Exec.{Exec, lift, ◌>>=◌, ◌>>◌}
use jimm.Exec.Rules.{run-cases, >>=-cases}
use jimm.Ofga.Names.{Tag, convert_tag, administrator_relation}
use jimm.Ofga.Tuples.{Tuple, tuple_eq, tuple_beq_iff}
use jimm.Ofga.Server.{Server, CheckLaws}
use jimm.Ofga.Client.{check_relation}
use jimm.User.{User, resource_tag, contextual_tuples}
use jimm.Relations.{
  RelationshipTuple, Directory, resource_admin_relations, grantable_object_kinds,
  checked_target_kinds, admin_answer, check_target_admin, target_kind, authorize_object,
  authorize_relation_target_admin, authorize_all, parse_tuples, add_relations, remove_relations,
}

abbrev admin_tuple : User → Option Tag → Tuple
admin_tuple user target = record {
  object = some (convert_tag (resource_tag user));
  relation = administrator_relation;
  target = target;
}

-- What an administrator of a resource may change: an access relation of a user, group, external group
-- or role to a controller, model, offer or cloud that the caller administers.
pub record Entitled (V : Server) (user : User) (stored : List Tuple) (t : Tuple) : Type 0 where
  pub object : Tag
  pub target : Tag
  pub object_is : t.object ≡ some object
  pub target_is : t.target ≡ some target
  pub access_relation : elem t.relation resource_admin_relations ≡ true
  pub grantee : elem object.kind grantable_object_kinds ≡ true
  pub on_resource : elem target.kind checked_target_kinds ≡ true
  pub ctx : List Tuple
  pub valid : contextual_tuples user ≡ ok ctx
  pub administers : V.allowed stored ctx (admin_tuple user (some target)) ≡ true

module _ (V : Server) (C : CheckLaws V) (user : User) where
  abbrev Administers : List Tuple → Option Tag → Type 0
  Administers stored target =
      (ctx : List Tuple) × (contextual_tuples user ≡ ok ctx)
      × (V.allowed stored ctx (admin_tuple user target) ≡ true)

  check_target_admin_sound :
      (target : Option Tag) (s : V.State)
      → (V.tuples (check_target_admin V user target s).1 ≡ V.tuples s)
        × ((check_target_admin V user target s).0 ≡ ok tt → Administers (V.tuples s) target)
  unfolding check_target_admin check_relation
  check_target_admin_sound target s =
      >>=-cases (λ r. (V.tuples r.1 ≡ V.tuples s) × (r.0 ≡ ok tt → Administers (V.tuples s) target))
        (lift (contextual_tuples user)) _ s
        (λ ctx s1 e.
          let same : s ≡ s1 = ap (λ r. r.1) e in
          let keep =
            λ (r : Result Bool) (s2 : V.State)
                (e2 : V.check_relation (admin_tuple user target) ctx s1 ≡ (r, s2)).
              ap (λ q. V.tuples q.1) (sym e2)
              ∙ C.check_keeps (admin_tuple user target) ctx s1
              ∙ ap V.tuples (sym same) in
          run-cases
            (λ q.
              (V.tuples (admin_answer V q.0 q.1).1 ≡ V.tuples s)
              × ((admin_answer V q.0 q.1).0 ≡ ok tt → Administers (V.tuples s) target))
            (V.check_relation (admin_tuple user target) ctx) s1
            (λ b s2 e2.
              elim b
                  as (λ b.
                    V.check_relation (admin_tuple user target) ctx s1 ≡ (ok b, s2)
                    → (V.tuples (admin_answer V (ok b) s2).1 ≡ V.tuples s)
                      × ((admin_answer V (ok b) s2).0 ≡ ok tt → Administers (V.tuples s) target)) [
                        | true ↦ λ e3. (
                          keep (ok true) s2 e3,
                          λ z. (
                            ctx,
                            ap (λ r. r.0) e,
                            ap (λ x. V.allowed (V.tuples x) ctx (admin_tuple user target)) same
                                ∙ sym (C.check_answer (admin_tuple user target) ctx s1 s2 true e3),
                          ),
                        )
                        | false ↦ λ e3. (keep (ok false) s2 e3, λ z. absurd (cc))
                      ]
                e2)
            (λ x s2 e2. (keep (err x) s2 e2, λ z. absurd (cc)))
            (λ s2 e2. (keep spent s2 e2, λ z. absurd (cc))))
        (λ x s1 e. (ap (λ q. V.tuples q.1) (sym e), λ z. absurd (cc)))
        (λ s1 e. (ap (λ q. V.tuples q.1) (sym e), λ z. absurd (cc)))

  -- How an authorization has ended: no tuple has changed, and it succeeded only where `P` holds.
  abbrev Sound : Type 0 → List Tuple → Result (Unit {0}) × V.State → Type 0
  Sound P before r = (V.tuples r.1 ≡ before) × (r.0 ≡ ok tt → P)

  authorize_object-Sound :
      (t : Tuple) (s : V.State)
      → user.jimm_admin ≡ false
      → elem t.relation resource_admin_relations ≡ true
      → (o g : Option Tag) → t.object ≡ o
      → t.target ≡ g
      → Sound (Entitled V user (V.tuples s) t) (V.tuples s) (authorize_object V user t o s)
  unfolding authorize_object target_kind
  authorize_object-Sound t s plain rel none g po pg = (refl, λ z. absurd (cc))
  authorize_object-Sound t s plain rel (some o) none po pg =
      elim (Bool-cases (elem o.kind grantable_object_kinds)) [
        | inl k ↦ simp (k, pg) (refl, λ z. absurd (cc))
        | inr k ↦ rw k (refl, λ z. absurd (cc))
      ]
  authorize_object-Sound t s plain rel (some o) (some g) po pg =
      elim (Bool-cases (elem o.kind grantable_object_kinds)) [
        | inl k ↦ elim (Bool-cases (elem g.kind checked_target_kinds)) [
          | inl on ↦
              let c = check_target_admin_sound (some g) s in
              simp (k, pg, on)
                (
                  c.0,
                  λ z.
                      let (ctx, valid, yes') = c.1 z in
                      record {
                        object = o;
                        target = g;
                        object_is = po;
                        target_is = pg;
                        access_relation = rel;
                        grantee = k;
                        on_resource = on;
                        ctx = ctx;
                        valid = valid;
                        administers = yes';
                      },
                )
          | inr off ↦ simp (k, pg, off) (refl, λ z. absurd (cc))
        ]
        | inr k ↦ rw k (refl, λ z. absurd (cc))
      ]

  authorize-Sound :
      (t : Tuple) (s : V.State)
      → user.jimm_admin ≡ false
      → Sound
          (Entitled V user (V.tuples s) t)
          (V.tuples s)
          (authorize_relation_target_admin V user t s)
  unfolding authorize_relation_target_admin
  authorize-Sound t s plain = elim (Bool-cases (elem t.relation resource_admin_relations)) [
    | inl r ↦ simp (plain, r) (authorize_object-Sound t s plain r t.object t.target refl refl)
    | inr r ↦ simp (plain, r) (refl, λ z. absurd (cc))
  ]

  abbrev AllEntitled : List Tuple → List Tuple → Type 0
  AllEntitled stored ts = (t : Tuple) → elem t ts ≡ true → Entitled V user stored t

  authorize_all-Sound :
      (ts : List Tuple) (s : V.State)
      → user.jimm_admin ≡ false
      → Sound (AllEntitled (V.tuples s) ts) (V.tuples s) (authorize_all V user ts s)
  unfolding authorize_all
  authorize_all-Sound [] s plain = (refl, λ z t m. absurd (cc))
  authorize_all-Sound (t ∷ ts) s plain =
      let one = authorize-Sound t s plain in
      >>=-cases (Sound (AllEntitled (V.tuples s) (t ∷ ts)) (V.tuples s))
        (authorize_relation_target_admin V user t) _ s
        (λ a s1 e.
          let same : V.tuples s1 ≡ V.tuples s = ap (λ q. V.tuples q.1) (sym e) ∙ one.0 in
          let first : Entitled V user (V.tuples s) t = one.1 (ap (λ q. q.0) e) in
          let rest = authorize_all-Sound ts s1 plain in
          (
            rest.0 ∙ same,
            λ z x m. elim (Bool-cases (x == t)) [
              | inl is ↦ subst (Entitled V user (V.tuples s)) (sym ((tuple_beq_iff x t).0 is)) first
              | inr other ↦
                  subst (λ b. Entitled V user b x) same (rest.1 z x (ground (arith, m, other)))
            ],
          ))
        (λ x s1 e. (ap (λ q. V.tuples q.1) (sym e) ∙ one.0, λ z. absurd (cc)))
        (λ s1 e. (ap (λ q. V.tuples q.1) (sym e) ∙ one.0, λ z. absurd (cc)))

-- What a request about relations may do: fail and change nothing, or go on with tuples that the caller
-- is entitled to change.
abbrev pub Guarded :
    (V : Server)
    → Directory V
    → User
    → List RelationshipTuple
    → V.State
    → Result (Unit {0}) × V.State
    → Type 0
Guarded V D user tuples s r =
    ((r.0 ≢ ok tt) × (V.tuples r.1 ≡ V.tuples s))
    ⊎ ((ts : List Tuple) × (s1 : V.State) × (parse_tuples V D tuples s ≡ (ok ts, s1))
        × ((t : Tuple) → elem t ts ≡ true → Entitled V user (V.tuples s) t))

module _ (V : Server) (C : CheckLaws V) (D : Directory V) (user : User)
    (tuples : List RelationshipTuple) (s : V.State)
    (reads : V.tuples (parse_tuples V D tuples s).1 ≡ V.tuples s)
    (plain : user.jimm_admin ≡ false) where
  Guarded-request :
      (write : List Tuple → Exec V.State (Unit {0}))
      → Guarded V D user tuples s
          ((parse_tuples V D tuples >>= λ ts. authorize_all V user ts >> write ts) s)
  Guarded-request write =
      >>=-cases (Guarded V D user tuples s) (parse_tuples V D tuples) _ s
        (λ ts s1 e.
          let same : V.tuples s1 ≡ V.tuples s = ap (λ q. V.tuples q.1) (sym e) ∙ reads in
          let auth = authorize_all-Sound V C user ts s1 plain in
          >>=-cases (Guarded V D user tuples s) (authorize_all V user ts) _ s1
            (λ a s2 e2. inr (
              ts,
              s1,
              e,
              λ t m. subst (λ b. Entitled V user b t) same (auth.1 (ap (λ q. q.0) e2) t m),
            ))
            (λ x s2 e2. inl (λ z. cc, ap (λ q. V.tuples q.1) (sym e2) ∙ auth.0 ∙ same))
            (λ s2 e2. inl (λ z. cc, ap (λ q. V.tuples q.1) (sym e2) ∙ auth.0 ∙ same)))
        (λ x s1 e. inl (λ z. cc, ap (λ q. V.tuples q.1) (sym e) ∙ reads))
        (λ s1 e. inl (λ z. cc, ap (λ q. V.tuples q.1) (sym e) ∙ reads))

  -- For a caller who is no JIMM administrator, where resolving the names changes no tuple: AddRelation
  -- and RemoveRelation either fail and change nothing, or every tuple of the request gives or takes an
  -- access relation of a user, group, external group or role on a controller, model, offer or cloud
  -- that the authorization model has the caller administer.
  pub relations_authorized :
      Guarded V D user tuples s (add_relations V D user tuples s)
      × Guarded V D user tuples s (remove_relations V D user tuples s)
  unfolding add_relations remove_relations
  relations_authorized = (Guarded-request _, Guarded-request _)
