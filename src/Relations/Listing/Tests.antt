-- ===== src/Relations/Listing/Tests.antt =====
-- Listings at a server that keeps one tuple.
use jimm.Prelude.{
  ◌≡◌, ◌≢◌, ◌≤◌, refl, sym, ap, String, Bool, true, false, not, ◌&&◌, List, [], ◌∷◌, length,
  length-select-le, select, arith, ◌==◌, string_eq, if◌then◌else◌,
}
use jimm.Errors.{plain, ok, err, spent}
use jimm.Exec.{pure}
use jimm.Exec.Rules.{ok-injective}
use jimm.Ofga.Names.{reader_relation}
use jimm.Ofga.Tuples.{Tuple, matches}
use jimm.Ofga.Server.{Server, ReadLaws}
use jimm.User.{User, new_user, user_tuple}
use jimm.Pagination.FirstPages.{first_pages, first_pages_laws}
use jimm.Relations.{Directory}
use jimm.Relations.Listing.{list_object_relations}
use jimm.Relations.Listing.Ranks.{CodecEnds}
use jimm.Relations.Listing.Rounds.{PageLaw}
use jimm.Relations.Listing.Ends.{list_object_relations_ends}

abbrev single : Server
single = record {
  State = Tuple;
  tuples = λ s. s ∷ [];
  find_matching_tuples = λ p n token s. (ok (select (matches p) (s ∷ []), ""), s);
  pending = λ p token s. select (matches p) (s ∷ []);
  add_relation_idempotent = λ ts. pure tt;
  remove_relation_idempotent = λ ts. pure tt;
  check_relation = λ t contextual. pure true;
  check_relation_with_tracing = λ t contextual. pure true;
  batch_check_relations = λ items. pure [];
  find_accessible_objects = λ t contextual. pure [];
  allowed = λ stored contextual t. true;
}

single_reads : ReadLaws single
single_reads = record {
  read_keeps = λ p n token s. refl;
  read_all = λ p s. refl;
  read_last =
      λ p n token s s' ts e. ap (λ (x : List Tuple × String). x.0) (ok-injective (ap (λ r. r.0) e));
  read_more = λ p n token next s s' ts e h.
      absurd (h (sym (ap (λ (x : List Tuple × String). x.1) (ok-injective (ap (λ r. r.0) e)))));
  read_ends = λ p n token s e. cc e;
}

single_pages : PageLaw single
single_pages = record {
  page_limit = λ p n token next s s' ts pos e. omega (
    arith,
    pos,
    length-select-le (matches p) (s ∷ []),
    ap length (ap (λ (x : List Tuple × String). x.0) (ok-injective (ap (λ r. r.0) e))),
  );
}

abbrev directory : Directory single
directory = record {
  parse_and_validate_tag = λ name. pure (record { kind = name; id = ""; relation = "" });
  new_user_from_tag = λ name. pure (new_user name);
}

codec_ends : CodecEnds first_pages
codec_ends = record {
  marshal_ends = λ c. go (c.openfga_token == "" && not (c.kind == "")) c.kind;
  unmarshal_ends = λ t e. cc e;
}
  where
    go :
        (b : Bool) (kind : String) → (if b then ok kind else err (plain "not a first page")) ≢ spent
    go true kind e = cc e
    go false kind e = cc e

abbrev alice : User
alice = record (new_user "alice@canonical.com") { jimm_admin = true }

abbrev stored : Tuple
stored = user_tuple alice (record { kind = "model"; id = "m1" }) reader_relation

list_object_relations_ends_example :
    ((list_object_relations single directory first_pages 10 alice "user" "" 4 "" stored).0 ≢ spent)
    × ((ts : List Tuple) (next : String)
        → (list_object_relations single directory first_pages 10 alice "user" "" 4 "" stored).0
          ≡ ok (ts, next)
        → (length ts ≤ 4) × (true ≡ true))
list_object_relations_ends_example =
    list_object_relations_ends single single_reads single_pages directory (λ text s e. cc e)
      first_pages first_pages_laws codec_ends 10 alice "user" "" 4 "" stored (omega arith)
      (omega arith)
