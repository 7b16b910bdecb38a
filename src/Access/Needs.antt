-- ===== src/Access/Needs.antt =====
-- The switches of GrantModelAccess and GrantCloudAccess, over the level that the target user has.
use jimm.Prelude.{
  inl, inr, ◌≡◌, refl, sym, ap, ◌∙◌, subst, String, Bool, true, false, [], ◌∷◌, elem, ◌==◌,
  string_eq, arith, Bool-cases, eq_iff,
}
use jimm.Errors.{ok}
use jimm.Ofga.Names.{
  administrator_relation, writer_relation, reader_relation, can_addmodel_relation,
}
use jimm.User.Levels.{highest, model_levels, cloud_levels}
use jimm.Access.{model_grant_needed, cloud_grant_needed}
use jimm.Access.Words.{to_model_relation, to_cloud_relation}
use jimm.Access.Effect.{up_to}
use jimm.Access.Cases.{model_relation_cases, cloud_relation_cases, model_level, cloud_level}

module _ (holds : String → Bool) where
  -- Where a grant is not needed, the target has the level or one above it.
  abbrev GrantsModel : String → Bool → Bool → Bool → Type 0
  GrantsModel target a w r =
      model_grant_needed target (model_level a w r) ≡ false
      → holds administrator_relation ≡ a
      → holds writer_relation ≡ w
      → holds reader_relation ≡ r
      → (l : String) × (elem l (up_to target model_levels) ≡ true) × (holds l ≡ true)

  grants_admin : (a w r : Bool) → GrantsModel administrator_relation a w r
  unfolding model_grant_needed
  grants_admin true w r n p q z = (administrator_relation, refl, p)
  grants_admin false true r n p q z = absurd (cc n)
  grants_admin false false true n p q z = absurd (cc n)
  grants_admin false false false n p q z = absurd (cc n)

  grants_writer : (a w r : Bool) → GrantsModel writer_relation a w r
  unfolding model_grant_needed
  grants_writer true w r n p q z = (administrator_relation, refl, p)
  grants_writer false true r n p q z = (writer_relation, refl, q)
  grants_writer false false true n p q z = absurd (cc n)
  grants_writer false false false n p q z = absurd (cc n)

  grants_reader : (a w r : Bool) → GrantsModel reader_relation a w r
  unfolding model_grant_needed
  grants_reader true w r n p q z = (administrator_relation, refl, p)
  grants_reader false true r n p q z = (writer_relation, refl, q)
  grants_reader false false true n p q z = (reader_relation, refl, z)
  grants_reader false false false n p q z = absurd (cc n)

  pub model_grant_needed_not :
      (access target : String)
      → to_model_relation access ≡ ok target
      → model_grant_needed target (highest holds model_levels) ≡ false
      → (l : String) × (elem l (up_to target model_levels) ≡ true) × (holds l ≡ true)
  unfolding highest
  model_grant_needed_not access target e =
      let a = holds administrator_relation in
      let w = holds writer_relation in
      let r = holds reader_relation in
      elim (model_relation_cases access target e) [
        | inl t ↦ rw t (λ n. grants_admin a w r n refl refl refl)
        | inr (inl t) ↦ rw t (λ n. grants_writer a w r n refl refl refl)
        | inr (inr t) ↦ rw t (λ n. grants_reader a w r n refl refl refl)
      ]

  abbrev GrantsCloud : String → Bool → Bool → Type 0
  GrantsCloud target a c =
      cloud_grant_needed target (cloud_level a c) ≡ false
      → holds administrator_relation ≡ a
      → holds can_addmodel_relation ≡ c
      → (l : String) × (elem l (up_to target cloud_levels) ≡ true) × (holds l ≡ true)

  GrantsCloud-admin : (a c : Bool) → GrantsCloud administrator_relation a c
  unfolding cloud_grant_needed
  GrantsCloud-admin true c n p q = (administrator_relation, refl, p)
  GrantsCloud-admin false true n p q = absurd (cc n)
  GrantsCloud-admin false false n p q = absurd (cc n)

  grants_add_model : (a c : Bool) → GrantsCloud can_addmodel_relation a c
  unfolding cloud_grant_needed
  grants_add_model true c n p q = (administrator_relation, refl, p)
  grants_add_model false true n p q = (can_addmodel_relation, refl, q)
  grants_add_model false false n p q = absurd (cc n)

  pub cloud_grant_needed_not :
      (access target : String)
      → to_cloud_relation access ≡ ok target
      → cloud_grant_needed target (highest holds cloud_levels) ≡ false
      → (l : String) × (elem l (up_to target cloud_levels) ≡ true) × (holds l ≡ true)
  unfolding highest
  cloud_grant_needed_not access target e =
      let a = holds administrator_relation in
      let c = holds can_addmodel_relation in
      elim (cloud_relation_cases access target e) [
        | inl t ↦ rw t (λ n. GrantsCloud-admin a c n refl refl)
        | inr t ↦ rw t (λ n. grants_add_model a c n refl refl)
      ]

  module _ (l : String) (k : holds l ≡ true) where
    implies_admin :
        elem l (administrator_relation ∷ []) ≡ true → holds administrator_relation ≡ true
    implies_admin m = ap holds (sym ((eq_iff l administrator_relation).0 (ground (arith, m)))) ∙ k

    implies_second :
        (x : String)
        → (holds administrator_relation ≡ true → holds x ≡ true)
        → elem l (administrator_relation ∷ x ∷ []) ≡ true
        → holds x ≡ true
    implies_second x h m = elim (Bool-cases (l == administrator_relation)) [
      | inl same ↦ h (ap holds (sym ((eq_iff l administrator_relation).0 same)) ∙ k)
      | inr other ↦ ap holds (sym ((eq_iff l x).0 (ground (arith, m, other)))) ∙ k
    ]

    implies_reader :
        (holds administrator_relation ≡ true → holds writer_relation ≡ true)
        → (holds writer_relation ≡ true → holds reader_relation ≡ true)
        → elem l model_levels ≡ true
        → holds reader_relation ≡ true
    implies_reader h1 h2 m = elim (Bool-cases (l == reader_relation)) [
      | inl same ↦ ap holds (sym ((eq_iff l reader_relation).0 same)) ∙ k
      | inr other ↦ h2 (implies_second writer_relation h1 (ground (arith, m, other)))
    ]

  -- A level on a model implies those below it.
  pub up_to_implies :
      (access target l : String)
      → to_model_relation access ≡ ok target
      → (holds administrator_relation ≡ true → holds writer_relation ≡ true)
      → (holds writer_relation ≡ true → holds reader_relation ≡ true)
      → elem l (up_to target model_levels) ≡ true
      → holds l ≡ true
      → holds target ≡ true
  up_to_implies access target l e h1 h2 m k = elim (model_relation_cases access target e) [
    | inl t ↦
        subst (λ t. elem l (up_to t model_levels) ≡ true → holds t ≡ true) (sym t)
          (implies_admin l k) m
    | inr (inl t) ↦
        subst (λ t. elem l (up_to t model_levels) ≡ true → holds t ≡ true) (sym t)
          (implies_second l k writer_relation h1) m
    | inr (inr t) ↦
        subst (λ t. elem l (up_to t model_levels) ≡ true → holds t ≡ true) (sym t)
          (implies_reader l k h1 h2) m
  ]

  -- So does a level on a cloud.
  pub cloud_up_to_implies :
      (access target l : String)
      → to_cloud_relation access ≡ ok target
      → (holds administrator_relation ≡ true → holds can_addmodel_relation ≡ true)
      → elem l (up_to target cloud_levels) ≡ true
      → holds l ≡ true
      → holds target ≡ true
  cloud_up_to_implies access target l e h m k = elim (cloud_relation_cases access target e) [
    | inl t ↦
        subst (λ t. elem l (up_to t cloud_levels) ≡ true → holds t ≡ true) (sym t)
          (implies_admin l k) m
    | inr t ↦
        subst (λ t. elem l (up_to t cloud_levels) ≡ true → holds t ≡ true) (sym t)
          (implies_second l k can_addmodel_relation h) m
  ]
