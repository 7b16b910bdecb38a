-- ===== src/CliStore/Sequences.antt =====
-- The store over time: a new store, then any sequence of Get and Done, each under the lock.
use jimm.Prelude.{
  ℕ, zero, suc, ◌≤◌, ◌≡◌, refl, sym, ◌∙◌, subst, true, List, [], ◌∷◌, length, ltb, arith,
  Bool-cases, inl, inr, ℤ, pos, negsuc,
}
use jimm.Errors.{plain, Result, ok, err, spent}
use jimm.CliStore.{
  Config, entry_limit, sized, new_store, Binary, Store, Outside, JujuBinarySpec, release, done, get,
}
use jimm.CliStore.Entries.{length-change, Distinct, change-Distinct}
use jimm.CliStore.Bounded.{WellFormed, get_keeps_store}

-- One call: whatever it returns, the store goes on from what it leaves.
pub data Call : Type 0 where
  get_binary : JujuBinarySpec → Call
  done_with : Binary → Call

module _ {World : Type 0} (F : Outside World) where
  unfoldable pub after_call : Call → Store World → Store World
  unfolding get done
  after_call (get_binary spec) s = (get F spec s).1
  after_call (done_with b) s = (done b s).1

  unfoldable pub after_calls : List Call → Store World → Store World
  unfolding after_call
  after_calls [] s = s
  after_calls (c ∷ cs) s = after_calls cs (after_call c s)

limit_range : (n : ℤ) (limit : ℕ) → entry_limit n ≡ ok limit → (1 ≤ limit) × (limit ≤ 10)
unfolding entry_limit
limit_range (negsuc n) limit e = (ground (arith, e), ground (arith, e))
limit_range (pos zero) limit e = (ground (arith, e), ground (arith, e))
limit_range (pos (suc n)) limit e = elim (Bool-cases (ltb 10 (suc n))) [
  | inl more ↦ absurd (cc (sym e ∙ big more))
  | inr less ↦
      let same : suc n ≡ limit = ground (arith, e, less) in
      (omega (arith, same), ground (arith, less, same))
]
  where
    big :
        ltb 10 (suc n) ≡ true
        → entry_limit (pos (suc n)) ≡ err (plain "max entries limit is too high")
    big more = rw more refl

-- What holds of a store at all times, for the limit that it was opened with.
pub record Sound {World : Type 0} (limit : ℕ) (s : Store World) : Type 0 where
  pub wf : WellFormed s
  pub same_limit : s.max_entries ≡ limit

module _ {World : Type 0} (F : Outside World) where
  after_call-Sound :
      (limit : ℕ) (c : Call) (s : Store World) → Sound limit s → Sound limit (after_call F c s)
  unfolding after_call done
  after_call-Sound limit (get_binary spec) s h =
      let g = get_keeps_store F spec s h.wf in record { wf = g.0; same_limit = g.1 ∙ h.same_limit }
  after_call-Sound limit (done_with b) s h = record {
    wf = record {
      bounded = omega (arith, h.wf.bounded, length-change release b.handle s.entries);
      distinct = change-Distinct release b.handle s.entries h.wf.distinct;
    };
    same_limit = h.same_limit;
  }

  after_calls-Sound :
      (limit : ℕ) (cs : List Call) (s : Store World)
      → Sound limit s
      → Sound limit (after_calls F cs s)
  unfolding after_calls
  after_calls-Sound limit [] s h = h
  after_calls-Sound limit (c ∷ cs) s h =
      after_calls-Sound limit cs (after_call F c s) (after_call-Sound limit c s h)

  opened :
      (limit : ℕ) (world : World) (s : Store World) → sized world (ok limit) ≡ ok s → Sound limit s
  unfolding Distinct
  opened limit world s e =
      let empty : Store World = record {
        max_entries = limit;
        entries = [];
        next_handle = 0;
        world = world;
      } in
      let same : empty ≡ s = ground arith in
      subst (Sound limit) same
        (record { wf = record { bounded = omega arith; distinct = tt }; same_limit = refl })

  -- Whatever limit the configuration asks for, whatever Get and Done are called in whatever order and
  -- whatever fails on the way: a store that NewJujuCLIStore has opened holds each url once and ten
  -- binaries at most, and its limit is a number from one to ten.
  pub store_stays_small :
      (cfg : Config) (world : World) (s : Store World) (cs : List Call)
      → new_store cfg world ≡ ok s
      → Distinct (after_calls F cs s).entries
        × (length (after_calls F cs s).entries ≤ 10)
        × (1 ≤ (after_calls F cs s).max_entries)
        × ((after_calls F cs s).max_entries ≤ 10)
  unfolding new_store
  store_stays_small cfg world s cs e = by_limit (entry_limit cfg.max_entries) refl e
    where
      by_limit :
          (r : Result ℕ)
          → entry_limit cfg.max_entries ≡ r
          → sized world r ≡ ok s
          → Distinct (after_calls F cs s).entries
            × (length (after_calls F cs s).entries ≤ 10)
            × (1 ≤ (after_calls F cs s).max_entries)
            × ((after_calls F cs s).max_entries ≤ 10)
      by_limit (ok limit) l h =
          let range = limit_range cfg.max_entries limit l in
          let held = after_calls-Sound limit cs s (opened limit world s h) in
          (
            held.wf.distinct,
            omega (arith, held.wf.bounded, held.same_limit, range.1),
            omega (arith, held.same_limit, range.0),
            omega (arith, held.same_limit, range.1),
          )
      by_limit (err x) l h = absurd (cc h)
      by_limit spent l h = absurd (cc h)
