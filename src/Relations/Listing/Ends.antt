-- ===== src/Relations/Listing/Ends.antt =====
-- internal/jimm/permissions/relations.go and internal/common/pagination/entitlement.go: a page of the
-- relations of an object is found in few rounds, and is no larger than asked for.
use jimm.Prelude.{
  ℕ, ◌+◌, ◌≤◌, ◌<◌, ◌≡◌, ◌≢◌, refl, ap, subst, String, Bool, true, false, ◌&&◌, not, List, [], ◌∷◌,
  length, ◌==◌, string_eq, nat_eq, arith, if◌then◌else◌,
}
use jimm.User.{User, wrapped, wrapping}
use jimm.Errors.{codef, code_unauthorized, Error, Result, ok, err, spent}
use jimm.Exec.{Exec, pure, raise, ◌>>=◌}
use jimm.Exec.Rules.{>>=-cases, ok-injective}
use jimm.Ofga.Tuples.{Tuple}
use jimm.Ofga.Server.{Server, ReadLaws}
use jimm.Pagination.Entitlement.{Codec, CodecLaws}
use jimm.Relations.{Directory}
use jimm.Relations.Listing.Ranks.{rank-le, CodecEnds}
use jimm.Relations.Listing.Rounds.{PageLaw, pages_Page}
use jimm.Relations.Listing.{
  get_object_relations_page, next_unless_empty, verified, list_object_relations,
}

module _ (V : Server) (R : ReadLaws V) (P : PageLaw V) (D : Directory V)
    (ends : (text : String) (s : V.State) → (D.parse_and_validate_tag text s).0 ≢ spent) (K : Codec)
    (L : CodecLaws K) (E : CodecEnds K) (fuel : ℕ) where
  -- What a listing returns.
  abbrev Listed : ℕ → Result (List Tuple × String) → Type 0
  Listed n r = (r ≢ spent) × ((ts : List Tuple) (next : String) → r ≡ ok (ts, next) → length ts ≤ n)

  failed-Listed : (n : ℕ) (e : Error) → Listed n (err e)
  failed-Listed n e = (λ z. cc z, λ ts next q. absurd (cc q))

  page-Listed :
      (object relation : String) (n : ℕ) (token : String) (s : V.State)
      → 0 < n
      → n + 6 ≤ fuel
      → Listed n (get_object_relations_page V D K fuel object relation n token s).0
  unfolding get_object_relations_page
  page-Listed object relation n token s pos enough =
      >>=-cases (λ r. Listed n r.0) (D.parse_and_validate_tag object) _ s
        (λ tag s1 e.
          let page =
            pages_Page V R P D ends K L E tag relation fuel n token [] s1 pos
              (omega (arith, enough), λ ct kind d. omega (arith, enough, rank-le kind)) in
          (page.no_end, λ ts next q. omega (arith, page.small ts next q)))
        (λ x s1 e. failed-Listed n x) (λ s1 e. absurd (ends object s (ap (λ r. r.0) e)))

  same_tuples :
      (n : ℕ) (ts : List Tuple) (next : String) (s : V.State)
      → length ts ≤ n
      → (found : List Tuple × String) → Listed n (next_unless_empty V D K (ts, next) found s).0
  same_tuples n ts next s small ([], t) = (
    λ z. cc z,
    λ us u q.
        subst (λ xs. length xs ≤ n) (ap (λ (x : List Tuple × String). x.0) (ok-injective q)) small,
  )
  same_tuples n ts next s small (v ∷ vs, t) = (
    λ z. cc z,
    λ us u q.
        subst (λ xs. length xs ≤ n) (ap (λ (x : List Tuple × String). x.0) (ok-injective q)) small,
  )

  wrapping_ends :
      {A : Type 0} (context : String) (m : Exec V.State A) (s : V.State)
      → (m s).0 ≢ spent
      → (wrapping V context m s).0 ≢ spent
  unfolding wrapping
  wrapping_ends {A = A} context m s h = go (m s).0 h
    where
      go : (r : Result A) → r ≢ spent → wrapped context r ≢ spent
      go (ok a) h z = cc z
      go (err x) h z = cc z
      go spent h z = h refl

  verified-Listed :
      (object relation : String) (n : ℕ) (ts : List Tuple) (next : String) (s : V.State)
      → 7 ≤ fuel
      → length ts ≤ n
      → Listed n (verified V D K fuel object relation n (ts, next) s).0
  verified-Listed object relation n ts next s enough small = go (length ts == n && not (next == ""))
    where
      go :
          (b : Bool)
          → Listed n
              ((if b
                  then wrapping V "error getting next page to verify it cointains something"
                      (get_object_relations_page V D K fuel object relation 1 next)
                    >>= next_unless_empty V D K (ts, next)
                  else pure (ts, next))
                s).0
      go true =
          >>=-cases (λ r. Listed n r.0)
            (wrapping V "error getting next page to verify it cointains something"
              (get_object_relations_page V D K fuel object relation 1 next))
            _ s (λ found s1 e. same_tuples n ts next s1 small found) (λ x s1 e. failed-Listed n x)
            (λ s1 e. absurd (
              wrapping_ends _ (get_object_relations_page V D K fuel object relation 1 next) s
                (page-Listed object relation 1 next s (omega arith) (omega (arith, enough))).0
                (ap (λ r. r.0) e)))
      go false = (
        λ z. cc z,
        λ us u q.
            subst (λ xs. length xs ≤ n) (ap (λ (x : List Tuple × String). x.0) (ok-injective q))
              small,
      )

  -- Listing the relations of an object, for a positive page size and with six rounds more than that,
  -- comes to an end, whatever token the client sends and however OpenFGA cuts its pages, and returns
  -- no more tuples than the page size; for a user who does not administer JIMM it returns none.
  pub list_object_relations_ends :
      (user : User) (object relation : String) (n : ℕ) (token : String) (s : V.State)
      → 0 < n
      → n + 6 ≤ fuel
      → ((list_object_relations V D K fuel user object relation n token s).0 ≢ spent)
        × ((ts : List Tuple) (next : String)
            → (list_object_relations V D K fuel user object relation n token s).0 ≡ ok (ts, next)
            → (length ts ≤ n) × (user.jimm_admin ≡ true))
  unfolding list_object_relations
  list_object_relations_ends user object relation n token s pos enough = go user.jimm_admin
    where
      go :
          (b : Bool)
          → let r =
              ((if not b
                  then raise (codef code_unauthorized "unauthorized")
                  else (get_object_relations_page V D K fuel object relation n token
                      >>= verified V D K fuel object relation n))
                s).0 in
            (r ≢ spent)
            × ((ts : List Tuple) (next : String) → r ≡ ok (ts, next) → (length ts ≤ n) × (b ≡ true))
      go false = (λ z. cc z, λ ts next q. absurd (cc q))
      go true =
          let listed =
            >>=-cases (λ r. Listed n r.0)
              (get_object_relations_page V D K fuel object relation n token) _ s
              (λ (ts, next) s1 e.
                verified-Listed object relation n ts next s1 (omega (arith, pos, enough))
                  ((page-Listed object relation n token s pos enough).1 ts next (ap (λ r. r.0) e)))
              (λ x s1 e. failed-Listed n x)
              (λ s1 e.
                absurd ((page-Listed object relation n token s pos enough).0 (ap (λ r. r.0) e))) in
          (listed.0, λ ts next q. (listed.1 ts next q, refl))
