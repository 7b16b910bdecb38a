-- ===== src/Ofga/Removal/Pages.antt =====
-- One round of removeTuples: what a page holds, and what its removal leaves.
use mathlib.Core.List.{append-nil}
use jimm.Prelude.{
  All, ℕ, ◌<◌, ◌≡◌, ◌≢◌, refl, sym, ap, ap₂, subst, false≢true, ◌∙◌, inl, inr, String, true, false,
  not, List, [], ◌∷◌, ◌++◌, map, arith, length, elem, elem-append, select, elem-select, select_all,
  without, select-without, without-select, elem-without, length-select-without, Bool-cases, ◌==◌,
  eq_iff, string_eq, ==_refl,
}
use jimm.Errors.{Error, Result, ok, err, spent}
use jimm.Exec.Rules.{>>=-cases, >>=-eq-ok, >>=-ends}
use jimm.Ofga.Tuples.{
  Tuple, tuple_eq, matches, is_public, public_access_adaptor, is_public-adaptor, adaptor_other,
  tuple_beq_iff,
}
use jimm.Ofga.Server.{Server, ReadLaws, WriteLaws}
use jimm.Ofga.Client.{remove_page, read_related_objects}

-- None of the listed tuples grants public access.
abbrev pub NoPublic : List Tuple → Type 0
NoPublic ts = (t : Tuple) → elem t ts ≡ true → is_public t ≡ false

pub NoPublic-of_All : (ts : List Tuple) → All (λ t. is_public t ≡ false) ts → NoPublic ts
NoPublic-of_All [] a t m = absurd (false≢true m)
NoPublic-of_All (x ∷ ts) a t m = elim (Bool-cases (t == x)) [
  | inl same ↦ ap is_public ((tuple_beq_iff t x).0 same) ∙ a.0
  | inr other ↦ NoPublic-of_All ts a.1 t (ground (arith, m, other))
]

pub map-adaptor : (ts : List Tuple) → NoPublic ts → map public_access_adaptor ts ≡ ts
map-adaptor [] h = refl
map-adaptor (t ∷ ts) h =
    ap₂ ◌∷◌ (adaptor_other t (h t (ground (arith, ==_refl t))))
      (map-adaptor ts (λ x m. h x (ground (arith, m))))

-- What the adaptor returns never holds public access.
pub elem-map_adaptor :
    (t : Tuple) (ts : List Tuple)
    → is_public t ≡ true
    → elem t (map public_access_adaptor ts) ≡ false
elem-map_adaptor t [] h = refl
elem-map_adaptor t (x ∷ ts) h = elim (Bool-cases (t == public_access_adaptor x)) [
  | inl same ↦ absurd (
      false≢true (
        sym (is_public-adaptor x)
        ∙ ap is_public (sym ((tuple_beq_iff t (public_access_adaptor x)).0 same))
        ∙ h))
  | inr other ↦ ground (arith, elem-map_adaptor t ts h, other)
]

-- The tuples that a query is not about.
abbrev pub others : Tuple → List Tuple → List Tuple
others p = select (λ t. not (matches p t))

module _ (V : Server) (R : ReadLaws V) (p : Tuple) (n : ℕ) (tok : String) where
  -- A page is what the server found, adapted; reading it changes nothing.
  pub read_page :
      (s s' : V.State) (ts : List Tuple) (ct : String)
      → read_related_objects V p n tok s ≡ (ok (ts, ct), s')
      → (found : List Tuple) × (V.find_matching_tuples p n tok s ≡ (ok (found, ct), s'))
        × (ts ≡ map public_access_adaptor found)
  unfolding read_related_objects
  read_page s s' ts ct h =
      let (q, s1, e, h') = >>=-eq-ok (V.find_matching_tuples p n tok) _ s s' (ts, ct) h in
      (q.0, e ∙ ground arith, ground arith)

  read_page_keeps : (s : V.State) → V.tuples (read_related_objects V p n tok s).1 ≡ V.tuples s
  unfolding read_related_objects
  read_page_keeps s =
      >>=-cases (λ r. V.tuples r.1 ≡ V.tuples s) (V.find_matching_tuples p n tok) _ s
        (λ q s1 e. ap (λ r. V.tuples r.1) (sym e) ∙ R.read_keeps p n tok s)
        (λ x s1 e. ap (λ r. V.tuples r.1) (sym e) ∙ R.read_keeps p n tok s)
        (λ s1 e. ap (λ r. V.tuples r.1) (sym e) ∙ R.read_keeps p n tok s)

  pub read_page_ends : (s : V.State) → (read_related_objects V p n tok s).0 ≢ spent
  unfolding read_related_objects
  read_page_ends s =
      >>=-ends (V.find_matching_tuples p n tok) _ s (R.read_ends p n tok s) (λ q s1 e h. cc)

  pub after_read :
      (s s' : V.State) (r : Result (List Tuple × String))
      → read_related_objects V p n tok s ≡ (r, s')
      → V.tuples s' ≡ V.tuples s
  after_read s s' r e = ap (λ q. V.tuples q.1) (sym e) ∙ read_page_keeps s

module _ (V : Server) (W : WriteLaws V) where
  pub page_removed :
      (ts : List Tuple) (s s' : V.State)
      → remove_page V ts s ≡ (ok tt, s')
      → V.tuples s' ≡ without ts (V.tuples s)
  unfolding remove_page
  page_removed [] s s' h =
      ap V.tuples (sym (ap (λ r. r.1) h)) ∙ sym (select_all _ (V.tuples s) (λ t. refl))
  page_removed (t ∷ ts) s s' h = W.removed (t ∷ ts) s s' h

  pub page_not_removed :
      (ts : List Tuple) (s s' : V.State) (e : Error)
      → remove_page V ts s ≡ (err e, s')
      → V.tuples s' ≡ V.tuples s
  unfolding remove_page
  page_not_removed [] s s' e h = absurd (cc (ap (λ r. r.0) h))
  page_not_removed (t ∷ ts) s s' e h = W.not_removed (t ∷ ts) s s' e h

  pub page_ends : (ts : List Tuple) (s : V.State) → (remove_page V ts s).0 ≢ spent
  unfolding remove_page
  page_ends [] s h = cc
  page_ends (t ∷ ts) s h = W.remove_ends (t ∷ ts) s h

-- What one page leaves to do: the rest of the matching tuples, none after the last page.
pub record Page (p : Tuple) (xs ts : List Tuple) (ct : String) : Type 0 where
  rest : List Tuple
  split : select (matches p) xs ≡ ts ++ rest
  last : (ct == "") ≡ true → rest ≡ []
  more : (ct == "") ≡ false → ts ≢ []

NoPublic-left : (xs ys : List Tuple) → NoPublic (xs ++ ys) → NoPublic xs
NoPublic-left xs ys h t m = h t (ground (arith, elem-append t xs ys, m))

module _ (V : Server) (R : ReadLaws V) (p : Tuple) (s s' : V.State) (found : List Tuple)
    (ct : String) (private : NoPublic (select (matches p) (V.tuples s)))
    (read : V.find_matching_tuples p 50 "" s ≡ (ok (found, ct), s')) where
  unadapted :
      (rest : List Tuple)
      → select (matches p) (V.tuples s) ≡ found ++ rest
      → found ≡ map public_access_adaptor found
  unadapted rest split =
      sym (map-adaptor found (NoPublic-left found rest (subst NoPublic split private)))

  found-Page : Page p (V.tuples s) found ct
  found-Page = elim (Bool-cases (ct == "")) [
    | inl done ↦
        let end : ct ≡ "" = (eq_iff ct "").0 done in
        let all : V.pending p "" s ≡ found =
          R.read_last p 50 "" s s' found
            (subst (λ c. V.find_matching_tuples p 50 "" s ≡ (ok (found, c), s')) end read) in
        record {
          rest = [];
          split = sym (R.read_all p s) ∙ all ∙ sym (append-nil found);
          last = λ _. refl;
          more = λ next. absurd (cc (done, next));
        }
    | inr next ↦
        let (some_found, all) =
          R.read_more p 50 "" ct s s' found read
            (λ end. false≢true (sym next ∙ (eq_iff ct "").1 end)) in
        record {
          rest = V.pending p ct s';
          split = sym (R.read_all p s) ∙ all;
          last = λ done. absurd (cc (done, next));
          more = λ _. some_found;
        }
  ]

pub read-Page :
    (V : Server) (R : ReadLaws V) (p : Tuple) (s s' : V.State) (ts : List Tuple) (ct : String)
    → NoPublic (select (matches p) (V.tuples s))
    → read_related_objects V p 50 "" s ≡ (ok (ts, ct), s')
    → Page p (V.tuples s) ts ct
read-Page V R p s s' ts ct h e =
    let (found, e', adapted) = read_page V R p 50 "" s s' ts ct e in
    let g : Page p (V.tuples s) found ct = found-Page V R p s s' found ct h e' in
    subst (λ xs. Page p (V.tuples s) xs ct)
      (unadapted V R p s s' found ct h e' g.rest g.split ∙ sym adapted) g

-- Taking a page of matching tuples out.
module _ (p : Tuple) (xs ts : List Tuple) (ct : String) (g : Page p xs ts ct) where
  page_match : (t : Tuple) → elem t ts ≡ true → matches p t ≡ true
  page_match t m =
      let whole : elem t (select (matches p) xs) ≡ true =
        ap (elem t) g.split ∙ elem-append t ts g.rest ∙ ground (arith, m) in
      ground (arith, elem-select (matches p) t xs, whole)

  pub others-page : others p (without ts xs) ≡ others p xs
  others-page = select-without _ ts xs (λ t m. ground (arith, page_match t m))

  pub NoPublic-page :
      NoPublic (select (matches p) xs) → NoPublic (select (matches p) (without ts xs))
  NoPublic-page h t m = h t (
      ground (
        arith,
        m,
        elem-select (matches p) t (without ts xs),
        elem-without t ts xs,
        elem-select (matches p) t xs,
      ))

  pub last_page : (ct == "") ≡ true → without ts xs ≡ others p xs
  last_page done =
      let whole : select (matches p) xs ≡ ts =
        g.split ∙ ap (λ r. ts ++ r) (g.last done) ∙ append-nil ts in
      ap (λ r. without r xs) (sym whole) ∙ without-select (matches p) xs

  pub fewer :
      (ct == "") ≡ false
      → length (select (matches p) (without ts xs)) < length (select (matches p) xs)
  fewer next = length-select-without (matches p) ts g.rest xs g.split (g.more next)
