-- ===== src/Relations/Listing/Rounds.antt =====
-- internal/jimm/permissions/relations.go: the rounds of getObjectRelationsPage.
use jimm.Prelude.{
  ℕ, zero, suc, ◌+◌, ◌-◌, ◌≤◌, ◌<◌, ◌≡◌, ◌≢◌, inl, inr, refl, sym, ap, ◌∙◌, String, Bool, true,
  false, ◌||◌, some, List, [], ◌∷◌, ◌++◌, map, length, length-append, leb, ◌==◌, string_eq, nat_eq,
  arith, eq_iff, length-pos, false≢true,
}
use jimm.Errors.{Error, Result, ok, err, spent}
use jimm.Exec.{Exec, pure, lift}
use jimm.Exec.Rules.{>>=-cases, ok-injective}
use jimm.Ofga.Names.{Tag}
use jimm.Ofga.Tuples.{Tuple, public_access_adaptor}
use jimm.Ofga.Server.{Server, ReadLaws}
use jimm.Ofga.Client.{read_related_objects}
use jimm.Pagination.Entitlement.{
  Codec, CodecLaws, decoded, decode_entitlement_token, next_entitlement_token, decode-next,
}
use jimm.Relations.{Directory}
use jimm.Relations.Listing.Ranks.{rank, next-rank, CodecEnds, decode_ends, next_ends}
use jimm.Relations.Listing.{relations_pages}

length-map : {A B : Type 0} (f : A → B) (xs : List A) → length (map f xs) ≡ length xs
length-map f [] = refl
length-map f (x ∷ xs) = ap suc (length-map f xs)

-- OpenFGA returns no more tuples than it is asked for, where that is a positive number.
pub record PageLaw (V : Server) : Type 0 where
  pub page_limit :
      (p : Tuple) (n : ℕ) (token next : String) (s s' : V.State) (ts : List Tuple)
      → 0 < n
      → V.find_matching_tuples p n token s ≡ (ok (ts, next), s')
      → length ts ≤ n

module _ (V : Server) (R : ReadLaws V) (P : PageLaw V) (D : Directory V)
    (ends : (text : String) (s : V.State) → (D.parse_and_validate_tag text s).0 ≢ spent) (K : Codec)
    (L : CodecLaws K) (E : CodecEnds K) (object : Tag) (relation : String) where
  -- One read: it ends, is no larger than asked for, and is empty only on the last page.
  record Read (n : ℕ) (r : Result (List Tuple × String)) : Type 0 where
    pub no_end : r ≢ spent
    pub small : (ts : List Tuple) (next : String) → r ≡ ok (ts, next) → length ts ≤ n
    some_more : (ts : List Tuple) (next : String) → r ≡ ok (ts, next) → next ≢ "" → 0 < length ts

  read_related_objects-Read :
      (p : Tuple) (n : ℕ) (token : String) (s : V.State)
      → 0 < n
      → Read n (read_related_objects V p n token s).0
  unfolding read_related_objects
  read_related_objects-Read p n token s pos =
      >>=-cases (λ r. Read n r.0) (V.find_matching_tuples p n token) _ s
        (λ (ts, next) s1 e. record {
          no_end = λ z. cc z;
          small = λ us t q.
              let same : map public_access_adaptor ts ≡ us =
                ap (λ (x : List Tuple × String). x.0) (ok-injective q) in
              omega (
                arith,
                P.page_limit p n token next s s1 ts pos e,
                length-map public_access_adaptor ts,
                ap length same,
              );
          some_more = λ us t q more.
              let same : map public_access_adaptor ts ≡ us =
                ap (λ (x : List Tuple × String). x.0) (ok-injective q) in
              let last : next ≡ t = ap (λ (x : List Tuple × String). x.1) (ok-injective q) in
              omega (
                arith,
                length-pos ts (R.read_more p n token next s s1 ts e (λ z. more (sym last ∙ z))).0,
                length-map public_access_adaptor ts,
                ap length same,
              );
        })
        (λ x s1 e. record {
          no_end = λ z. cc z;
          small = λ us t q. absurd (cc q);
          some_more = λ us t q. absurd (cc q);
        })
        (λ s1 e. absurd (R.read_ends p n token s (ap (λ r. r.0) e)))

  -- A page: found within the fuel, and of `n` tuples at most after those that were there.
  pub record Page (n : ℕ) (found : List Tuple) (r : Result (List Tuple × String)) : Type 0 where
    pub no_end : r ≢ spent
    pub small : (ts : List Tuple) (next : String) → r ≡ ok (ts, next) → length ts ≤ length found + n

  failed-Page : (n : ℕ) (found : List Tuple) (e : Error) → Page n found (err e)
  failed-Page n found e = record { no_end = λ z. cc z; small = λ ts next q. absurd (cc q) }

  -- The rounds that are left are enough for the kind that the token stands for.
  abbrev pub Enough : ℕ → ℕ → String → Type 0
  Enough fuel n token =
      (n ≤ fuel)
      × ((ct kind : String)
          → decode_entitlement_token K token ≡ ok (ct, kind)
          → rank kind + n ≤ fuel)

  next-Enough :
      (fuel n left : ℕ) (kind more next : String)
      → rank kind + n ≤ suc fuel
      → 0 < left
      → left ≤ n
      → (more ≢ "" → suc left ≤ n)
      → next ≢ ""
      → next_entitlement_token K kind more ≡ ok next
      → Enough fuel left next
  next-Enough fuel n left kind more next bound pos le less unfinished e =
      elim (decode-next K L kind more next e) [
        | inl (some_token, decoded) ↦ (
          omega (arith, bound, less some_token),
          λ ct k d.
              let same : kind ≡ k =
                ap (λ (x : String × String). x.1) (ok-injective (sym decoded ∙ d)) in
              omega (arith, bound, less some_token, ap rank same),
        )
        | inr (inl (_, _, last)) ↦ absurd (unfinished last)
        | inr (inr (_, (j, follows, decoded))) ↦ (
          omega (arith, bound, le, next-rank kind j follows),
          λ ct k d.
              let same : j ≡ k =
                ap (λ (x : String × String). x.1) (ok-injective (sym decoded ∙ d)) in
              omega (arith, bound, le, next-rank kind j follows, ap rank same),
        )
      ]

  -- After one read: the page is full or the last one, or the rounds that are left find the rest.
  continued :
      (fuel n : ℕ) (kind : String) (ts : List Tuple) (more next : String) (found : List Tuple)
      (s : V.State)
      → 0 < n
      → rank kind + n ≤ suc fuel
      → length ts ≤ n
      → (more ≢ "" → 0 < length ts)
      → next_entitlement_token K kind more ≡ ok next
      → (b : Bool) → (leb (n - length ts) 0 || (next == "")) ≡ b
      → (0 < n - length ts
          → Enough fuel (n - length ts) next
          → Page
              (n - length ts)
              (found ++ ts)
              (relations_pages V D K fuel object relation (n - length ts) next (found ++ ts) s).0)
      → Page n found (
          ((elim b as (λ b. Exec V.State (List Tuple × String)) [
            | true ↦ pure (found ++ ts, next)
            | false ↦ relations_pages V D K fuel object relation (n - length ts) next (found ++ ts)
          ])
            s).0)
  continued fuel n kind ts more next found s pos bound small some_more e true q rest = record {
    no_end = λ z. cc z;
    small = λ us t z.
        let same : found ++ ts ≡ us = ap (λ (x : List Tuple × String). x.0) (ok-injective z) in
        omega (arith, small, length-append found ts, ap length same);
  }
  continued fuel n kind ts more next found s pos bound small some_more e false q rest =
      let left : 0 < n - length ts = ground (arith, q) in
      let unfinished : (next == "") ≡ false = ground (arith, q) in
      let page = rest left (
        next-Enough fuel n (n - length ts) kind more next bound left (omega arith)
          (λ h. omega (arith, some_more h, left))
          (λ z. false≢true (sym unfinished ∙ (eq_iff next "").1 z)) e) in
      record {
        no_end = page.no_end;
        small = λ us t z. omega (arith, page.small us t z, small, length-append found ts);
      }

  pub pages_Page :
      (fuel n : ℕ) (token : String) (found : List Tuple) (s : V.State)
      → 0 < n
      → Enough fuel n token
      → Page n found (relations_pages V D K fuel object relation n token found s).0
  unfolding relations_pages
  pages_Page zero n token found s pos (some_fuel, bound) = absurd (omega (arith, pos, some_fuel))
  pages_Page (suc fuel) n token found s pos (some_fuel, bound) =
      >>=-cases (λ r. Page n found r.0) (lift (decode_entitlement_token K token)) _ s
        (λ (ct, kind) s1 e.
          >>=-cases (λ r. Page n found r.0) (D.parse_and_validate_tag kind) _ s1
            (λ target s2 e2.
              let p : Tuple = record {
                object = some object;
                relation = relation;
                target = some target;
              } in
              let one : Read n (read_related_objects V p n ct s2).0 =
                read_related_objects-Read p n ct s2 pos in
              >>=-cases (λ r. Page n found r.0) (read_related_objects V p n ct) _ s2
                (λ (ts, more) s3 e3.
                  >>=-cases (λ r. Page n found r.0) (lift (next_entitlement_token K kind more)) _ s3
                    (λ next s4 e4.
                      continued fuel n kind ts more next found s4 pos
                        (bound ct kind (ap (λ r. r.0) e)) (one.small ts more (ap (λ r. r.0) e3))
                        (one.some_more ts more (ap (λ r. r.0) e3)) (ap (λ r. r.0) e4)
                        (leb (n - length ts) 0 || (next == "")) refl
                        (λ pos' enough.
                          pages_Page fuel (n - length ts) next (found ++ ts) s4 pos' enough))
                    (λ x s4 e4. failed-Page n found x)
                    (λ s4 e4. absurd (next_ends K E kind more (ap (λ r. r.0) e4))))
                (λ x s3 e3. failed-Page n found x)
                (λ s3 e3. absurd (one.no_end (ap (λ r. r.0) e3))))
            (λ x s2 e2. failed-Page n found x) (λ s2 e2. absurd (ends kind s1 (ap (λ r. r.0) e2))))
        (λ x s1 e. failed-Page n found x) (λ s1 e. absurd (decode_ends K E token (ap (λ r. r.0) e)))
