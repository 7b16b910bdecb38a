-- ===== src/CliStore/Tests.antt =====
-- A store of one entry, whose only binary is idle.
use jimm.Prelude.{◌≤◌, negsuc, List, [], ◌∷◌, length, ◌≡◌, refl, some, String, arith}
use jimm.Errors.{ok}
use jimm.Exec.{pure}
use jimm.CliStore.Sequences.{Call, get_binary, done_with, after_calls, store_stays_small}
use jimm.CliStore.{
  Config, new_store, entry_limit, Binary, Store, Outside, JujuBinarySpec, lookup, erase, idle, nth,
  delete_file, delete_entry, evict, free_entry, fetch, get_entry, get,
}
use jimm.CliStore.Entries.{Distinct}
use jimm.CliStore.Bounded.{WellFormed, KeepsUsed, get_keeps_store}

abbrev quiet : Outside (Unit {0})
quiet = record {
  binary_url = λ spec. ok spec.version;
  download = λ url. pure url;
  remove = λ path. pure tt;
  rand_int = λ n. pure 0;
}

abbrev one_entry : Store (Unit {0})
one_entry = record {
  max_entries = 1;
  entries = ("3.6.2", record { handle = 0; full_path = "/tmp/juju-0"; reference_count = 0 }) ∷ [];
  next_handle = 1;
  world = tt;
}

one_entry_fits : WellFormed one_entry
unfolding Distinct lookup
one_entry_fits = record { bounded = omega arith; distinct = (refl, tt) }

abbrev next : JujuBinarySpec
next = record { version = "3.6.3"; os = "linux"; arch = "amd64" }

-- The idle binary makes room for the new one.
get_runs :
    (get quiet next one_entry).0
    ≡ ok (record { handle = 1; full_path = "3.6.3"; reference_count = 1 })
unfolding get get_entry fetch free_entry evict delete_entry delete_file nth idle lookup erase
get_runs = refl

get_keeps_store_example :
    WellFormed (get quiet next one_entry).1
    × ((get quiet next one_entry).1.max_entries ≡ 1)
    × KeepsUsed one_entry (get quiet next one_entry).1
    × ((b : Binary)
        → (get quiet next one_entry).0 ≡ ok b
        → (url : String) × (quiet.binary_url next ≡ ok url)
          × (lookup url (get quiet next one_entry).1.entries ≡ some b))
get_keeps_store_example = get_keeps_store quiet next one_entry one_entry_fits

abbrev config : Config
config = record { base_url = ""; dir = ""; max_entries = negsuc 0 }

abbrev opened_store : Store (Unit {0})
opened_store = record { max_entries = 2; entries = []; next_handle = 0; world = tt }

config_opens : new_store config tt ≡ ok opened_store
unfolding new_store entry_limit
config_opens = refl

abbrev calls : List Call
calls =
    get_binary next
    ∷ get_binary next
    ∷ done_with (record { handle = 0; full_path = ""; reference_count = 0 })
    ∷ []

store_stays_small_example :
    Distinct (after_calls quiet calls opened_store).entries
    × (length (after_calls quiet calls opened_store).entries ≤ 10)
    × (1 ≤ (after_calls quiet calls opened_store).max_entries)
    × ((after_calls quiet calls opened_store).max_entries ≤ 10)
store_stays_small_example = store_stays_small quiet config tt opened_store calls config_opens
