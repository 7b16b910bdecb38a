-- ===== src/Ofga/Cleanup.antt =====
-- RemoveModel, RemoveApplicationOffer, RemoveRole, RemoveGroup and RemoveCloud of
-- internal/openfga/openfga.go: sequences of removals, each for one partial tuple.
use jimm.Prelude.{
  string_eq, ℕ, ◌<◌, ◌≡◌, ◌≢◌, refl, sym, ap, subst, ◌∙◌, Bool, true, false, not, ◌||◌, String,
  none, some, List, [], ◌∷◌, map, arith, length, elem, select, elem-select, select-select,
  select_congr, select_all, length-select-le, fun_ext,
}
use jimm.Errors.{Result, ok, err, spent}
use jimm.Exec.{Exec, pure, continue, ◌>>=◌, ◌>>◌}
use jimm.Exec.Rules.{>>=-cases, run-cases}
use jimm.Ofga.Names.{
  Tag, JujuTag, convert_tag, convert_tag_with_relation, blank_kind_tag, member_relation,
  assignee_relation, offer_kind, cloud_kind, group_kind,
}
use jimm.Ofga.Tuples.{Tuple, tuple_eq, matches}
use jimm.Ofga.Server.{Server, ReadLaws, WriteLaws}
use jimm.Ofga.Client.{
  remove_tuples, remove_model, remove_role, remove_group, remove_grants, on_target, resource_types,
}
use jimm.Ofga.Removal.{Removed, remove_tuples_exact}
use jimm.Ofga.Removal.Pages.{NoPublic, others}

-- Some of the partial tuples stands for `t`.
abbrev pub any_matches : List Tuple → Tuple → Bool
any_matches [] t = false
any_matches (p ∷ ps) t = matches p t || any_matches ps t

abbrev pub unmatched : List Tuple → List Tuple → List Tuple
unmatched ps = select (λ t. not (any_matches ps t))

unmatched-cons :
    (p : Tuple) (ps xs : List Tuple) → unmatched (p ∷ ps) xs ≡ unmatched ps (others p xs)
unmatched-cons p ps xs =
    select_congr _ _ (λ t. ground arith) xs ∙ sym (select-select (λ t. not (any_matches ps t)) _ xs)

unmatched-cons_last :
    (p : Tuple) (ps xs : List Tuple) → unmatched (p ∷ ps) xs ≡ others p (unmatched ps xs)
unmatched-cons_last p ps xs =
    select_congr _ _ (λ t. ground arith) xs ∙ sym (select-select (λ t. not (matches p t)) _ xs)

-- Where the others of `p` are the same, so is what none of `p ∷ ps` stands for.
unmatched_same :
    (p : Tuple) (ps xs ys : List Tuple)
    → others p xs ≡ others p ys
    → unmatched (p ∷ ps) xs ≡ unmatched (p ∷ ps) ys
unmatched_same p ps xs ys h =
    unmatched-cons p ps xs ∙ ap (unmatched ps) h ∙ sym (unmatched-cons p ps ys)

-- removeTuples for each partial tuple in turn
unfoldable pub remove_all : (V : Server) → ℕ → List Tuple → Exec V.State (Unit {0})
remove_all V fuel [] = pure tt
remove_all V fuel (p ∷ ps) = do remove_tuples V fuel p; remove_all V fuel ps

-- How a sequence of removals has ended: within its fuel, with every tuple in place that none of the
-- partial tuples stands for, and if it reported no error, with those alone.
pub record RemovedAll (V : Server) (ps before : List Tuple) (r : Result (Unit {0}) × V.State)
    : Type 0 where
  pub ended : r.0 ≢ spent
  pub kept : unmatched ps (V.tuples r.1) ≡ unmatched ps before
  pub gone : r.0 ≡ ok tt → V.tuples r.1 ≡ unmatched ps before

NoPublic-select : (q : Tuple → Bool) (xs : List Tuple) → NoPublic xs → NoPublic (select q xs)
NoPublic-select q xs h t m = h t (ground (arith, elem-select q t xs, m))

module _ (V : Server) (R : ReadLaws V) (W : WriteLaws V) where
  remove_all_exact :
      (fuel : ℕ) (ps : List Tuple) (s : V.State)
      → NoPublic (V.tuples s)
      → length (V.tuples s) < fuel
      → RemovedAll V ps (V.tuples s) (remove_all V fuel ps s)
  unfolding remove_all
  remove_all_exact fuel [] s h lt = record {
    ended = λ e. cc;
    kept = refl;
    gone = λ _. sym (select_all _ (V.tuples s) (λ t. refl));
  }
  remove_all_exact fuel (p ∷ ps) s h lt =
      let one : Removed V p (V.tuples s) (remove_tuples V fuel p s) =
        remove_tuples_exact V R W p fuel s (NoPublic-select (matches p) (V.tuples s) h)
          (omega (arith, length-select-le (matches p) (V.tuples s))) in
      >>=-cases (RemovedAll V (p ∷ ps) (V.tuples s)) (remove_tuples V fuel p) _ s
        (λ u s1 e.
          let one' : Removed V p (V.tuples s) (ok u, s1) = subst (Removed V p (V.tuples s)) e one in
          let left : V.tuples s1 ≡ others p (V.tuples s) = one'.gone refl in
          let rest : RemovedAll V ps (V.tuples s1) (remove_all V fuel ps s1) =
            remove_all_exact fuel ps s1
              (subst NoPublic (sym left) (NoPublic-select _ (V.tuples s) h))
              (rw left (omega (arith, length-select-le (λ t. not (matches p t)) (V.tuples s)))) in
          record {
            ended = rest.ended;
            kept =
                unmatched-cons_last p ps _
                ∙ ap (others p) rest.kept
                ∙ sym (unmatched-cons_last p ps (V.tuples s1))
                ∙ unmatched_same p ps _ _ one'.kept;
            gone = λ done.
                rest.gone done ∙ ap (unmatched ps) left ∙ sym (unmatched-cons p ps (V.tuples s));
          })
        (λ x s1 e.
          let one' : Removed V p (V.tuples s) (err x, s1) =
            subst (Removed V p (V.tuples s)) e one in
          record {
            ended = λ z. cc;
            kept = unmatched_same p ps _ _ one'.kept;
            gone = λ z. absurd (cc);
          })
        (λ s1 e. absurd (one.ended (ap (λ r. r.0) e)))

-- What RemoveGroup and RemoveRole look for: `relation` to the entity itself, then the grants to its
-- members on each listed kind of resource.
abbrev pub grant_of : Tag → String → Tuple
grant_of object kind = record {
  object = some object;
  relation = "";
  target = some (record { kind = kind; id = ""; relation = "" });
}

abbrev pub entity_tuples : JujuTag → String → List String → List Tuple
entity_tuples t relation kinds =
    record { object = none; relation = relation; target = some (convert_tag t) }
    ∷ map (grant_of (convert_tag_with_relation t relation)) kinds

abbrev pub model_tuples : JujuTag → List Tuple
model_tuples model = on_target model ∷ grant_of (convert_tag model) offer_kind ∷ []

remove_group-eq :
    (V : Server) (fuel : ℕ) (g : JujuTag)
    → remove_group V fuel g ≡ remove_all V fuel (entity_tuples g member_relation resource_types)
unfolding remove_group remove_grants remove_all blank_kind_tag
remove_group-eq V fuel g = refl

remove_role-eq :
    (V : Server) (fuel : ℕ) (g : JujuTag)
    → remove_role V fuel g ≡ remove_all V fuel (entity_tuples g assignee_relation resource_types)
unfolding remove_role remove_grants remove_all blank_kind_tag
remove_role-eq V fuel g = refl

then_pure : {S : Type 0} (m : Exec S (Unit {0})) (s : S) → (m >> pure tt) s ≡ m s
then_pure m s =
    run-cases (λ r. continue (λ _. pure tt) r.0 r.1 ≡ r) m s (λ a s' e. refl) (λ x s' e. refl)
      (λ s' e. refl)

remove_model-eq :
    (V : Server) (fuel : ℕ) (model : JujuTag) (s : V.State)
    → remove_all V fuel (model_tuples model) s ≡ remove_model V fuel model s
unfolding remove_model remove_all blank_kind_tag
remove_model-eq V fuel model s =
    ap (λ (m : Exec V.State (Unit {0})). (remove_tuples V fuel (on_target model) >>= λ _. m) s)
      (fun_ext (then_pure (remove_tuples V fuel (grant_of (convert_tag model) offer_kind))))

-- A relation of a group's members to a cloud.
abbrev pub cloud_grant : String → String → String → Tuple
cloud_grant group relation cloud = record {
  object = some (record { kind = group_kind; id = group; relation = member_relation });
  relation = relation;
  target = some (record { kind = cloud_kind; id = cloud; relation = "" });
}

module _ (V : Server) (R : ReadLaws V) (W : WriteLaws V) (fuel : ℕ) (s : V.State)
    (private : NoPublic (V.tuples s)) (enough : length (V.tuples s) < fuel) where
  -- RemoveGroup, given more rounds than there are tuples and no public access among them, ends. It
  -- leaves every tuple that is neither a membership of the group nor a grant to its members on a
  -- listed kind of resource, and when it reports no error it leaves only those.
  pub remove_group_exact :
      (group : JujuTag)
      → RemovedAll V
          (entity_tuples group member_relation resource_types)
          (V.tuples s)
          (remove_group V fuel group s)
  remove_group_exact group = rw (remove_group-eq V fuel group) (
      remove_all_exact V R W fuel (entity_tuples group member_relation resource_types) s private
        enough)

  -- RemoveRole, under the same conditions, ends. It leaves every tuple that is neither an assignment
  -- of the role nor a grant to its assignees on a listed kind of resource, and when it reports no
  -- error it leaves only those.
  pub remove_role_exact :
      (role : JujuTag)
      → RemovedAll V
          (entity_tuples role assignee_relation resource_types)
          (V.tuples s)
          (remove_role V fuel role s)
  remove_role_exact role = rw (remove_role-eq V fuel role) (
      remove_all_exact V R W fuel (entity_tuples role assignee_relation resource_types) s private
        enough)

  -- RemoveModel, under the same conditions, ends, leaves every tuple that neither has the model as
  -- its target nor relates it to an application offer, and without an error leaves only those.
  pub remove_model_exact :
      (model : JujuTag)
      → RemovedAll V (model_tuples model) (V.tuples s) (remove_model V fuel model s)
  remove_model_exact model =
      subst (RemovedAll V (model_tuples model) (V.tuples s)) (remove_model-eq V fuel model s)
        (remove_all_exact V R W fuel (model_tuples model) s private enough)

  -- RemoveGroup, under the same conditions, leaves each relation of the group's members to a cloud
  -- in place, whatever it reports.
  pub remove_group_keeps_cloud :
      (group relation cloud : String)
      → elem (cloud_grant group relation cloud) (V.tuples s) ≡ true
      → elem
          (cloud_grant group relation cloud)
          (V.tuples (remove_group V fuel (record { kind = group_kind; id = group }) s).1)
        ≡ true
  unfolding matches convert_tag_with_relation
  remove_group_keeps_cloud group relation cloud m =
      let g : JujuTag = record { kind = group_kind; id = group } in
      let t : Tuple = cloud_grant group relation cloud in
      let ps : List Tuple = entity_tuples g member_relation resource_types in
      let r : RemovedAll V ps (V.tuples s) (remove_group V fuel g s) = remove_group_exact g in
      let apart : any_matches ps t ≡ false = ground arith in
      ground (
        arith,
        m,
        apart,
        elem-select (λ x. not (any_matches ps x)) t (V.tuples s),
        elem-select (λ x. not (any_matches ps x)) t (V.tuples (remove_group V fuel g s).1),
        ap (elem t) r.kept,
      )
