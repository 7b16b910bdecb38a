-- ===== src/Ofga/Memory.antt =====
-- A server in memory that meets the documented behaviour: it keeps a list, answers in pages of two,
-- and grants what is stored or contextual. The tests run the model on it.
pub mod Batches
pub mod Beside
use jimm.Prelude.{
  ◌==◌, string_eq, if◌then◌else◌, false, ℕ, zero, suc, ◌≡◌, ◌≢◌, refl, sym, ap, ap₂, ◌∙◌, String,
  Bool, ◌||◌, List, [], ◌∷◌, ◌++◌, map, arith, elem, elem-append, length, length-append, select,
  without, take, drop, take-append-drop,
}
use jimm.Errors.{ok}
use jimm.Ofga.Names.{
  reader_relation, writer_relation, administrator_relation, can_addmodel_relation,
}
use jimm.Ofga.Tuples.{Tuple, tuple_eq, matches}
use jimm.Ofga.Server.{Server, CheckItem, ReadLaws, WriteLaws, CheckLaws}

-- A token is a text as long as what has been read.
abbrev pub size : String → ℕ
size String.[] = 0
size (String.◌∷◌ c s) = suc (size s)

abbrev pub marks : ℕ → String
marks zero = ""
marks (suc n) = String.◌∷◌ "." (marks n)

size-marks : (n : ℕ) → size (marks n) ≡ n
size-marks zero = refl
size-marks (suc n) = ap suc (size-marks n)

abbrev pub next_token : ℕ → List Tuple → String
next_token read [] = ""
next_token read (t ∷ ts) = marks (suc (suc read))

abbrev pub page : ℕ → List Tuple → List Tuple × String
page read left = (take 2 left, next_token read (drop 2 left))

-- The relations that imply a relation, as in the authorization model.
abbrev implied_by : String → List String
implied_by relation =
    if relation == reader_relation
    then writer_relation ∷ administrator_relation ∷ []
    else if relation == writer_relation || (relation == can_addmodel_relation)
    then administrator_relation ∷ []
    else []

abbrev any_stored : List Tuple → Tuple → List String → Bool
any_stored ts t [] = false
any_stored ts t (r ∷ rs) = elem (record t { relation = r }) ts || any_stored ts t rs

abbrev pub memory_allowed : List Tuple → List Tuple → Tuple → Bool
memory_allowed stored contextual t =
    elem t stored
    || (elem t contextual || any_stored (stored ++ contextual) t (implied_by t.relation))

abbrev pub memory : Server
memory = record {
  State = List Tuple;
  tuples = λ s. s;
  find_matching_tuples =
      λ p n token s. (ok (page (size token) (drop (size token) (select (matches p) s))), s);
  pending = λ p token s. drop (size token) (select (matches p) s);
  add_relation_idempotent = λ ts s. (ok tt, ts ++ s);
  remove_relation_idempotent = λ ts s. (ok tt, without ts s);
  check_relation = λ t contextual s. (ok (memory_allowed s contextual t), s);
  check_relation_with_tracing = λ t contextual s. (ok (memory_allowed s contextual t), s);
  batch_check_relations = λ items s. (
    ok (map (λ (c : CheckItem). (c.correlation_id, memory_allowed s c.contextual c.tuple)) items),
    s,
  );
  find_accessible_objects = λ t contextual s. (ok [], s);
  allowed = memory_allowed;
}

take_whole :
    (left : List Tuple) (read : ℕ) → next_token read (drop 2 left) ≡ "" → left ≡ take 2 left
take_whole [] read h = refl
take_whole (t ∷ []) read h = refl
take_whole (t ∷ u ∷ []) read h = refl
take_whole (t ∷ u ∷ v ∷ left) read h = absurd (omega (arith, ap size h))

drop-drop : (n : ℕ) (xs : List Tuple) → drop 2 (drop n xs) ≡ drop (suc (suc n)) xs
drop-drop zero xs = refl
drop-drop (suc n) [] = refl
drop-drop (suc n) (x ∷ xs) = drop-drop n xs

page_some : (left : List Tuple) (read : ℕ) → next_token read (drop 2 left) ≢ "" → take 2 left ≢ []
page_some [] read h = absurd (h refl)
page_some (t ∷ []) read h = absurd (h refl)
page_some (t ∷ u ∷ left) read h = λ e. cc

page_next :
    (read : ℕ) (xs left : List Tuple)
    → left ≡ drop 2 (drop read xs)
    → next_token read left ≢ ""
    → left ≡ drop (size (next_token read left)) xs
page_next read xs [] e h = absurd (h refl)
page_next read xs (t ∷ ts) e h =
    e ∙ drop-drop read xs ∙ sym (ap (λ n. drop n xs) (size-marks (suc (suc read))))

pub memory_reads : ReadLaws memory
memory_reads = record {
  read_keeps = λ p n token s. refl;
  read_all = λ p s. refl;
  read_last = λ p n token s s' ts e.
      let from : List Tuple = drop (size token) (select (matches p) s) in
      let parts : (take 2 from ≡ ts) × (next_token (size token) (drop 2 from) ≡ "") =
        (ground arith, ground arith) in
      take_whole from (size token) parts.1 ∙ parts.0;
  read_more = λ p n token next s s' ts e more.
      let xs : List Tuple = select (matches p) s in
      let from : List Tuple = drop (size token) xs in
      let front : take 2 from ≡ ts = ground arith in
      let token' : next_token (size token) (drop 2 from) ≡ next = ground arith in
      let same : s ≡ s' = ap (λ r. r.1) e in
      let more' : next_token (size token) (drop 2 from) ≢ "" = λ z. more (sym token' ∙ z) in
      (
        λ z. page_some from (size token) more' (front ∙ z),
        sym (take-append-drop 2 from)
            ∙ ap₂ ◌++◌ front (
                page_next (size token) xs (drop 2 from) refl more'
                ∙ ap₂ (λ k u. drop (size k) (select (matches p) u)) token' same),
      );
  read_ends = λ p n token s e. cc;
}

pub memory_writes : WriteLaws memory
memory_writes = record {
  added = λ ts s s' e t. ap (elem t) (sym (ap (λ r. r.1) e)) ∙ elem-append t ts s ∙ ground arith;
  added_few = λ ts s s' e. omega (arith, length-append ts s, sym (ap (λ r. length r.1) e));
  not_added = λ ts s s' x e. absurd (cc (ap (λ r. r.0) e));
  removed = λ ts s s' e. sym (ap (λ r. r.1) e);
  not_removed = λ ts s s' x e. absurd (cc (ap (λ r. r.0) e));
  exists_already = λ t s s' x e. absurd (cc (ap (λ r. r.0) e));
  absent_already = λ t s s' x e. absurd (cc (ap (λ r. r.0) e));
  add_ends = λ ts s e. cc;
  remove_ends = λ ts s e. cc;
}

pub memory_checks : CheckLaws memory
memory_checks = record {
  check_keeps = λ t c s. refl;
  trace_keeps = λ t c s. refl;
  check_answer = λ t c s s' b e. ground arith;
  trace_answer = λ t c s s' b e. ground arith;
  direct = λ stored c t m. ground (arith, m);
}
