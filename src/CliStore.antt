-- ===== src/CliStore.antt =====
-- internal/jujuclistore/store.go: the bounded cache of Juju binaries. A state is what the store's lock
-- protects; each operation runs under the lock, so they follow one another. The reference counts
-- (atomic.Int32) keep their 32 bits. Downloading (retry.Call of downloadFile), the file system and the
-- random choice are an interface; times, logs and progress are left out.
pub mod Entries
pub mod Bounded
pub mod Sequences
mod Tests
use jimm.Prelude.{
  ℕ, zero, suc, ◌+◌, ◌-◌, ◌%◌, ◌^◌, ltb, leb, length, String, Bool, true, false, Option, none, some,
  List, [], ◌∷◌, ℤ, pos, negsuc, ◌==◌, string_eq, nat_eq, if◌then◌else◌,
}
use jimm.Errors.{Error, plain, wrapf, Result, ok, err, spent}
use jimm.Exec.{Exec, pure, raise, lift, attempt, ◌>>=◌, ◌>>◌}

pub record Config : Type 0 where
  pub base_url : String
  pub dir : String
  pub max_entries : ℤ

-- JujuBinarySpec
pub record JujuBinarySpec : Type 0 where
  pub version : String
  pub os : String
  pub arch : String

-- A *Binary, told apart from others by its handle.
pub record Binary : Type 0 where
  pub handle : ℕ
  pub full_path : String
  pub reference_count : ℕ

abbrev pub Entries : Type 0
Entries = List (String × Binary)

-- `world` is all that is outside the store: files, network, randomness.
pub record Store (World : Type 0) : Type 0 where
  pub max_entries : ℕ
  pub entries : Entries
  pub next_handle : ℕ
  pub world : World

pub record Outside (World : Type 0) : Type 0 where
  -- version.Parse and the URL template
  pub binary_url : JujuBinarySpec → Result String
  -- retry.Call of downloadFile: the path of the file
  pub download : String → Exec World String
  -- os.Remove
  pub remove : String → Exec World (Unit {0})
  -- rand.IntN of a positive number
  pub rand_int : ℕ → Exec World ℕ

abbrev pub default_base_url : String
default_base_url = "https://github.com/juju/juju/releases/download"

-- NewJujuCLIStore: the limit on entries
unfoldable pub entry_limit : ℤ → Result ℕ
entry_limit (negsuc n) = ok 2
entry_limit (pos zero) = ok 2
entry_limit (pos (suc n)) =
    if ltb 10 (suc n) then err (plain "max entries limit is too high") else ok (suc n)

-- NewJujuCLIStore: the URL that downloads start from
pub base_url_of : Config → String
base_url_of cfg = if cfg.base_url == "" then default_base_url else cfg.base_url

abbrev pub sized : {World : Type 0} → World → Result ℕ → Result (Store World)
sized world (ok limit) =
    ok (record { max_entries = limit; entries = []; next_handle = 0; world = world })
sized world (err e) = err e
sized world spent = spent

-- NewJujuCLIStore; the client, the template and the directory are part of what is outside.
unfoldable pub new_store : {World : Type 0} → Config → World → Result (Store World)
unfolding entry_limit
new_store cfg world = sized world (entry_limit cfg.max_entries)

unfoldable pub lookup : String → Entries → Option Binary
lookup k [] = none
lookup k ((url, b) ∷ es) = let rest = lookup k es in if url == k then some b else rest

unfoldable pub erase : String → Entries → Entries
erase k [] = []
erase k ((url, b) ∷ es) = let rest = erase k es in if url == k then rest else (url, b) ∷ rest

-- the urls that freeEntry may delete
unfoldable pub idle : Entries → List String
idle [] = []
idle ((url, b) ∷ es) = let rest = idle es in if b.reference_count == 0 then url ∷ rest else rest

unfoldable pub nth : ℕ → List String → Option String
nth n [] = none
nth zero (x ∷ xs) = some x
nth (suc n) (x ∷ xs) = nth n xs

-- Add(1) and Add(-1) of an atomic.Int32
abbrev pub retain : Binary → Binary
retain b = record b { reference_count = (b.reference_count + 1) % 2 ^ 32 }

abbrev pub release : Binary → Binary
release b = record b { reference_count = (b.reference_count + (2 ^ 32 - 1)) % 2 ^ 32 }

-- A change of the binary with that handle, wherever the map has it.
unfoldable pub change : (Binary → Binary) → ℕ → Entries → Entries
change f h [] = []
change f h ((url, b) ∷ es) = (url, if b.handle == h then f b else b) ∷ change f h es

module _ {World : Type 0} where
  -- Done; a binary that the map has no longer is nobody's concern here
  unfoldable pub done : Binary → Exec (Store World) (Unit {0})
  unfolding change
  done b s = (ok tt, record s { entries = change release b.handle s.entries })

  abbrev pub outside : {A : Type 0} → Exec World A → Exec (Store World) A
  outside m s = let (r, w) = m s.world in (r, record s { world = w })

  abbrev pub annotated : Result (Unit {0}) → Exec (Store World) (Unit {0})
  annotated (err e) = raise (wrapf "failed to remove binary" e)
  annotated r = lift r

  abbrev pub forget : String → Exec (Store World) (Unit {0})
  forget url s = (ok tt, record s { entries = erase url s.entries })

module _ {World : Type 0} (F : Outside World) where
  -- freeEntry, for the url that is chosen; what the Go code would panic on is an error here
  unfoldable pub delete_file : String → Option Binary → Exec (Store World) (Unit {0})
  unfolding erase
  delete_file url none = raise (plain "nil binary")
  delete_file url (some b) = do
    r ← attempt (outside (F.remove b.full_path))
    annotated r
    forget url

  unfoldable pub delete_entry : Option String → Exec (Store World) (Unit {0})
  unfolding delete_file lookup
  delete_entry none s = (err (plain "index out of range"), s)
  delete_entry (some url) s = delete_file url (lookup url s.entries) s

  unfoldable pub evict : List String → Exec (Store World) (Unit {0})
  unfolding delete_entry nth
  evict [] = raise (plain "no entries to delete, max entries limit reached")
  evict (k ∷ ks) = do i ← outside (F.rand_int (length (k ∷ ks))); delete_entry (nth i (k ∷ ks))

  -- freeEntry
  unfoldable pub free_entry : Exec (Store World) (Unit {0})
  unfolding evict idle
  free_entry s =
      if ltb (length s.entries) s.max_entries then (ok tt, s) else evict (idle s.entries) s

  -- the new entry of Get
  abbrev pub enter : String → String → Exec (Store World) Binary
  enter url path s =
      let b : Binary = record { handle = s.next_handle; full_path = path; reference_count = 1 } in
      (ok b, record s { entries = (url, b) ∷ s.entries; next_handle = suc s.next_handle })

  -- Get, for a url that the map does not have
  unfoldable fetch : String → Exec (Store World) Binary
  unfolding free_entry
  fetch url = do free_entry; path ← outside (F.download url); enter url path

  -- Get, for what the map has under the url
  unfoldable pub get_entry : String → Option Binary → Exec (Store World) Binary
  unfolding change fetch
  get_entry url (some b) s =
      (ok (retain b), record s { entries = change retain b.handle s.entries })
  get_entry url none s = fetch url s

  -- Get
  unfoldable pub get : JujuBinarySpec → Exec (Store World) Binary
  unfolding get_entry lookup
  get spec = lift (F.binary_url spec) >>= λ url s. get_entry url (lookup url s.entries) s
