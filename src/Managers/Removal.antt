-- ===== src/Managers/Removal.antt =====
-- internal/jimm/group/group.go and internal/openfga/openfga.go: what RemoveGroup of the manager leaves.
use jimm.Prelude.{ℕ, ◌≡◌, ◌≢◌, ◌<◌, refl, sym, ap, ◌∙◌, subst, String, true, List, length}
use jimm.Errors.{Error, Result, ok, err, spent}
use jimm.Exec.{Exec}
use jimm.Exec.Rules.{>>=-cases, >>=-eq-ok, >>=-ends, ok-injective}
use jimm.Ofga.Names.{member_relation}
use jimm.Ofga.Tuples.{Tuple}
use jimm.Ofga.Server.{Server, ReadLaws, WriteLaws}
use jimm.Ofga.Client.{resource_types, remove_group as remove_group_tuples}
use jimm.Ofga.Removal.Pages.{NoPublic}
use jimm.Ofga.Cleanup.{RemovedAll, entity_tuples, remove_group_exact}
use jimm.User.{User}
use jimm.Managers.{for_admin}
use jimm.Managers.Groups.{
  GroupEntry, GroupDatabase, GroupManager, group_tag, drop_group, remove_group,
}

-- The database changes no tuple and answers; a transaction that is committed has run its body.
pub record GroupLaws (V : Server) (M : GroupManager V) : Type 0 where
  pub get_keeps : (g : GroupEntry) (s : V.State) → V.tuples (M.store.get_group g s).1 ≡ V.tuples s
  pub remove_keeps :
      (g : GroupEntry) (s : V.State) → V.tuples (M.store.remove_group g s).1 ≡ V.tuples s
  pub get_ends : (g : GroupEntry) (s : V.State) → (M.store.get_group g s).0 ≢ spent
  pub remove_ends : (g : GroupEntry) (s : V.State) → (M.store.remove_group g s).0 ≢ spent
  pub transaction_keeps :
      (f : GroupDatabase V → Exec V.State GroupEntry) (s : V.State)
      → ((d : GroupDatabase V) (t : V.State) → V.tuples (f d t).1 ≡ V.tuples t)
      → V.tuples (M.transaction f s).1 ≡ V.tuples s
  pub transaction_ends :
      (f : GroupDatabase V → Exec V.State GroupEntry) (s : V.State)
      → ((d : GroupDatabase V) (t : V.State) → (f d t).0 ≢ spent)
      → (M.transaction f s).0 ≢ spent
  pub transaction_ran :
      (f : GroupDatabase V → Exec V.State GroupEntry) (s s' : V.State) (g : GroupEntry)
      → M.transaction f s ≡ (ok g, s')
      → (d : GroupDatabase V) × (t : V.State) × (t' : V.State) × (f d t ≡ (ok g, t'))

module _ (V : Server) (M : GroupManager V) where
  abbrev named : String → GroupEntry
  named name = record { uuid = ""; name = name }

  -- How removing the group of this name has ended: the group was not taken from the database, and the
  -- tuples are as before; or it was found and deleted there, and its tuples were removed.
  pub data Outcome (name : String) (before : List Tuple) (r : Result (Unit {0}) × V.State)
      : Type 0 where
    unchanged : (e : Error) → r.0 ≡ err e → V.tuples r.1 ≡ before → Outcome name before r
    deleted :
        (g : GroupEntry) (t t1 t2 : V.State)
        → M.store.get_group (named name) t ≡ (ok g, t1)
        → M.store.remove_group g t1 ≡ (ok tt, t2)
        → RemovedAll V (entity_tuples (group_tag g) member_relation resource_types) before r
        → Outcome name before r

module _ (V : Server) (R : ReadLaws V) (W : WriteLaws V) (M : GroupManager V)
    (L : GroupLaws V M) where
  drop_keeps :
      (name : String) (d : GroupDatabase V) (t : V.State)
      → V.tuples (drop_group V M name d t).1 ≡ V.tuples t
  drop_keeps name d t =
      >>=-cases (λ r. V.tuples r.1 ≡ V.tuples t) (M.store.get_group (named V M name)) _ t
        (λ g t1 e.
          >>=-cases (λ r. V.tuples r.1 ≡ V.tuples t) (M.store.remove_group g) _ t1
            (λ u t2 e2. removed g t1 t2 _ e2 ∙ found t1 _ e)
            (λ x t2 e2. removed g t1 t2 _ e2 ∙ found t1 _ e)
            (λ t2 e2. removed g t1 t2 _ e2 ∙ found t1 _ e))
        (λ x t1 e. found t1 _ e) (λ t1 e. found t1 _ e)
    where
      found :
          (t1 : V.State) (r : Result GroupEntry)
          → M.store.get_group (named V M name) t ≡ (r, t1)
          → V.tuples t1 ≡ V.tuples t
      found t1 r e = ap (λ q. V.tuples q.1) (sym e) ∙ L.get_keeps (named V M name) t

      removed :
          (g : GroupEntry) (t1 t2 : V.State) (r : Result (Unit {0}))
          → M.store.remove_group g t1 ≡ (r, t2)
          → V.tuples t2 ≡ V.tuples t1
      removed g t1 t2 r e = ap (λ q. V.tuples q.1) (sym e) ∙ L.remove_keeps g t1

  drop_ends :
      (name : String) (d : GroupDatabase V) (t : V.State) → (drop_group V M name d t).0 ≢ spent
  drop_ends name d t =
      >>=-ends (M.store.get_group (named V M name)) _ t (L.get_ends (named V M name) t)
        (λ g t1 e. >>=-ends (M.store.remove_group g) _ t1 (L.remove_ends g t1) (λ u t2 e2 z. cc z))

  -- RemoveGroup of the manager, for an administrator, given more rounds than there are tuples, no
  -- public access among them, and a database that changes no tuple: either it fails and no tuple has
  -- changed, or the group of that name was found and deleted in the database, and every tuple is left
  -- that is neither a membership of that group nor a grant to its members on a listed kind of
  -- resource, and, where no error is reported, only those. It ends in both cases.
  pub remove_group_outcome :
      (fuel : ℕ) (user : User) (name : String) (s : V.State)
      → user.jimm_admin ≡ true
      → NoPublic (V.tuples s)
      → length (V.tuples s) < fuel
      → Outcome V M name (V.tuples s) (remove_group V M fuel user name s)
  unfolding remove_group for_admin
  remove_group_outcome fuel user name s admin private enough = rw admin (
      >>=-cases (Outcome V M name (V.tuples s)) (M.transaction (drop_group V M name)) _ s
        (λ g s1 e.
          let kept : V.tuples s1 ≡ V.tuples s =
            ap (λ q. V.tuples q.1) (sym e)
            ∙ L.transaction_keeps (drop_group V M name) s (drop_keeps name) in
          let (d, t, t', ran) = L.transaction_ran (drop_group V M name) s s1 g e in
          let (g1, t1, e1, e2) = >>=-eq-ok (M.store.get_group (named V M name)) _ t t' g ran in
          let (u, t2, e3, e4) = >>=-eq-ok (M.store.remove_group g1) _ t1 t' g e2 in
          let same : g1 ≡ g = ok-injective (ap (λ r. r.0) e4) in
          deleted g t t1 t2 (e1 ∙ ap (λ x. (ok x, t1)) same)
            (ap (λ x. M.store.remove_group x t1) (sym same) ∙ e3)
            (subst
              (λ ts.
                RemovedAll V (entity_tuples (group_tag g) member_relation resource_types) ts
                  (remove_group_tuples V fuel (group_tag g) s1))
              kept
              (remove_group_exact V R W fuel s1 (subst NoPublic (sym kept) private)
                (subst (λ ts. length ts < fuel) (sym kept) enough) (group_tag g))))
        (λ x s1 e. unchanged x refl (
          ap (λ q. V.tuples q.1) (sym e)
          ∙ L.transaction_keeps (drop_group V M name) s (drop_keeps name)))
        (λ s1 e.
          absurd (L.transaction_ends (drop_group V M name) s (drop_ends name) (ap (λ r. r.0) e))))
