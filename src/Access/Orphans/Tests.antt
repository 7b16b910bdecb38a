-- ===== src/Access/Orphans/Tests.antt =====
-- A cleanup after the removal of a group.
use jimm.Prelude.{
  ◌≡◌, refl, Option, none, some, List, [], ◌∷◌, String, ◌==◌, string_eq, elem, if◌then◌else◌,
}
use jimm.Errors.{Result, ok, err, coded, code_not_found}
use jimm.Ofga.Names.{Tag}
use jimm.Ofga.Tuples.{Tuple, tuple_eq}
use jimm.Ofga.Memory.{memory, memory_reads, memory_writes}
use jimm.Access.Orphans.{orphaned, openfga_cleanup, openfga_cleanup_keeps}

abbrev no_group : Tag → Result String
no_group t =
    if t.kind == "group" then err (coded code_not_found "group not found" none) else ok t.id

-- No group is known.
abbrev without_groups : Option Tag → Result String
without_groups none = ok ""
without_groups (some t) = no_group t

abbrev link : String → String → Tuple
link kind id = record {
  object = some (record { kind = kind; id = id; relation = "" });
  relation = "reader";
  target = some (record { kind = "model"; id = "m1"; relation = "" });
}

abbrev store : List Tuple
store = link "group" "g1" ∷ link "user" "alice@canonical.com" ∷ link "group" "g2" ∷ []

openfga_cleanup_keeps_example :
    elem (link "user" "alice@canonical.com") (openfga_cleanup memory without_groups 4 "" store).1
    ≡ elem (link "user" "alice@canonical.com") store
unfolding orphaned
openfga_cleanup_keeps_example =
    openfga_cleanup_keeps memory memory_reads memory_writes without_groups
      (link "user" "alice@canonical.com") refl 4 "" store
