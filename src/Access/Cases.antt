-- ===== src/Access/Cases.antt =====
-- The switches of GrantModelAccess, RevokeModelAccess and their cloud versions, over the level that
-- the target user has: where they return at once there is nothing to do.
use jimm.Prelude.{
  ◌⊎◌, inl, inr, ◌≡◌, refl, ap, ◌∙◌, String, Bool, true, false, List, [], ◌∷◌, elem, ◌==◌,
  string_eq, if◌then◌else◌, Option, none, some, arith, Bool-cases, eq_iff,
}
use jimm.Errors.{ok}
use jimm.Ofga.Names.{
  administrator_relation, writer_relation, reader_relation, can_addmodel_relation, no_relation,
}
use jimm.User.Levels.{highest, model_levels, cloud_levels}
use jimm.Access.{model_revocation, cloud_revocation}
use jimm.Access.Words.{to_model_relation, to_cloud_relation}
use jimm.Access.Effect.{up_to}

-- A word for a level on a model stands for one of the three relations.
pub model_relation_cases :
    (access target : String)
    → to_model_relation access ≡ ok target
    → (target ≡ administrator_relation) ⊎ (target ≡ writer_relation) ⊎ (target ≡ reader_relation)
unfolding to_model_relation
model_relation_cases access target e = ground arith

-- A word for a level on a cloud stands for one of the two relations.
pub cloud_relation_cases :
    (access target : String)
    → to_cloud_relation access ≡ ok target
    → (target ≡ administrator_relation) ⊎ (target ≡ can_addmodel_relation)
unfolding to_cloud_relation
cloud_relation_cases access target e = ground arith

-- The level that the tests of GetModelAccess and GetCloudAccess find.
abbrev pub model_level : Bool → Bool → Bool → String
model_level a w r =
    if a
    then administrator_relation
    else if w
    then writer_relation
    else if r
    then reader_relation
    else no_relation

abbrev pub cloud_level : Bool → Bool → String
cloud_level a c =
    if a then administrator_relation else if c then can_addmodel_relation else no_relation

-- What a revocation unsets is what there is down to its level.
abbrev pub Revokes : (String → Bool) → List String → Option (List String) → Type 0
Revokes holds levels none = (l : String) → elem l levels ≡ true → holds l ≡ false
Revokes holds levels (some rels) = (l : String) → elem l rels ≡ elem l levels

abbrev pub second : Option (String × List String) → Option (List String)
second none = none
second (some (a, rels)) = some rels

-- Of a list of levels that are not held, none is.
pub none_held :
    (holds : String → Bool) (x : String) (levels : List String) (l : String)
    → holds x ≡ false
    → (elem l levels ≡ true → holds l ≡ false)
    → elem l (x ∷ levels) ≡ true
    → holds l ≡ false
none_held holds x levels l p rest m = elim (Bool-cases (l == x)) [
  | inl same ↦ ap holds ((eq_iff l x).0 same) ∙ p
  | inr other ↦ rest (ground (arith, m, other))
]

module _ (holds : String → Bool) where
  pub none_admin :
      (l : String)
      → holds administrator_relation ≡ false
      → elem l (administrator_relation ∷ []) ≡ true
      → holds l ≡ false
  none_admin l a = none_held holds administrator_relation [] l a (λ m. absurd (cc m))

  pub none_two :
      (x l : String)
      → holds administrator_relation ≡ false
      → holds x ≡ false
      → elem l (administrator_relation ∷ x ∷ []) ≡ true
      → holds l ≡ false
  none_two x l a p =
      none_held holds administrator_relation (x ∷ []) l a
        (none_held holds x [] l p (λ m. absurd (cc m)))

  none_three :
      (l : String)
      → holds administrator_relation ≡ false
      → holds writer_relation ≡ false
      → holds reader_relation ≡ false
      → elem l model_levels ≡ true
      → holds l ≡ false
  none_three l a w r =
      none_held holds administrator_relation (writer_relation ∷ reader_relation ∷ []) l a (
        none_held holds writer_relation (reader_relation ∷ []) l w
          (none_held holds reader_relation [] l r (λ m. absurd (cc m))))

  abbrev RevokesModel : String → Bool → Bool → Bool → Type 0
  RevokesModel target a w r =
      holds administrator_relation ≡ a
      → holds writer_relation ≡ w
      → holds reader_relation ≡ r
      → Revokes holds (up_to target model_levels)
          (second (model_revocation target (model_level a w r)))

  revokes_admin : (a w r : Bool) → RevokesModel administrator_relation a w r
  unfolding model_revocation
  revokes_admin true w r p q z = λ l. refl
  revokes_admin false true r p q z = λ l. none_admin l p
  revokes_admin false false true p q z = λ l. none_admin l p
  revokes_admin false false false p q z = λ l. none_admin l p

  revokes_writer : (a w r : Bool) → RevokesModel writer_relation a w r
  unfolding model_revocation
  revokes_writer true w r p q z = λ l. ground arith
  revokes_writer false true r p q z = λ l. ground arith
  revokes_writer false false true p q z = λ l. none_two writer_relation l p q
  revokes_writer false false false p q z = λ l. none_two writer_relation l p q

  revokes_reader : (a w r : Bool) → RevokesModel reader_relation a w r
  unfolding model_revocation
  revokes_reader true w r p q z = λ l. ground arith
  revokes_reader false true r p q z = λ l. ground arith
  revokes_reader false false true p q z = λ l. ground arith
  revokes_reader false false false p q z = λ l. none_three l p q z

  pub model_revocation-Revokes :
      (access target : String)
      → to_model_relation access ≡ ok target
      → Revokes holds
          (up_to target model_levels)
          (second (model_revocation target (highest holds model_levels)))
  unfolding highest
  model_revocation-Revokes access target e =
      let a = holds administrator_relation in
      let w = holds writer_relation in
      let r = holds reader_relation in
      elim (model_relation_cases access target e) [
        | inl t ↦ rw t (revokes_admin a w r refl refl refl)
        | inr (inl t) ↦ rw t (revokes_writer a w r refl refl refl)
        | inr (inr t) ↦ rw t (revokes_reader a w r refl refl refl)
      ]

  abbrev RevokesCloud : String → Bool → Bool → Type 0
  RevokesCloud target a c =
      holds administrator_relation ≡ a
      → holds can_addmodel_relation ≡ c
      → Revokes holds (up_to target cloud_levels) (cloud_revocation target (cloud_level a c))

  RevokesCloud-admin : (a c : Bool) → RevokesCloud administrator_relation a c
  unfolding cloud_revocation
  RevokesCloud-admin true c p q = λ l. refl
  RevokesCloud-admin false true p q = λ l. none_admin l p
  RevokesCloud-admin false false p q = λ l. none_admin l p

  revokes_add_model : (a c : Bool) → RevokesCloud can_addmodel_relation a c
  unfolding cloud_revocation
  revokes_add_model true c p q = λ l. ground arith
  revokes_add_model false true p q = λ l. ground arith
  revokes_add_model false false p q = λ l. none_two can_addmodel_relation l p q

  pub cloud_revocation-Revokes :
      (access target : String)
      → to_cloud_relation access ≡ ok target
      → Revokes holds
          (up_to target cloud_levels)
          (cloud_revocation target (highest holds cloud_levels))
  unfolding highest
  cloud_revocation-Revokes access target e =
      let a = holds administrator_relation in
      let c = holds can_addmodel_relation in
      elim (cloud_relation_cases access target e) [
        | inl t ↦ rw t (RevokesCloud-admin a c refl refl)
        | inr t ↦ rw t (revokes_add_model a c refl refl)
      ]
