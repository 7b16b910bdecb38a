-- ===== src/CliStore/Bounded.antt =====
-- The store never holds more than its limit, and never drops a binary that is in use.
use jimm.Prelude.{
  ℕ, ◌≤◌, ◌<◌, ◌≡◌, ◌≢◌, refl, sym, ap, ◌∙◌, subst, String, true, Option, none, some, List, [], ◌∷◌,
  length, elem, ◌==◌, string_eq, nat_eq, if◌then◌else◌, arith, Bool-cases, inl, inr, ltb, ltb→lt,
  eq_iff, ==_refl, nat_beq_iff,
}
use jimm.Errors.{Result, ok, err, spent}
use jimm.Exec.{continue, ◌>>◌}
use jimm.Exec.Rules.{run-cases, >>=-cases}
use jimm.CliStore.{
  Binary, Entries, Store, Outside, lookup, idle, nth, retain, annotated, forget, delete_file,
  delete_entry, evict, free_entry, enter, fetch, get_entry, get, JujuBinarySpec,
}
use jimm.CliStore.Entries.{
  length-change, length-erase, lookup-erase_other, lookup-erase-none, Distinct, erase-Distinct,
  change-Distinct, lookup-change, idle-lookup, elem-nth,
}

pub record WellFormed {World : Type 0} (s : Store World) : Type 0 where
  pub bounded : length s.entries ≤ s.max_entries
  pub distinct : Distinct s.entries

module _ {World : Type 0} where
  -- A binary with a reference stays under its url.
  abbrev pub KeepsUsed : Store World → Store World → Type 0
  KeepsUsed before after =
      (url : String) (b : Binary)
      → lookup url before.entries ≡ some b
      → b.reference_count ≢ 0
      → (c : Binary) × (lookup url after.entries ≡ some c)
        × (c.handle ≡ b.handle)
        × (c.full_path ≡ b.full_path)

  -- What freeEntry leaves: a map that is well-formed, with room if there was no error, and with all
  -- that is in use as it was.
  record Freed (limit : ℕ) (before : Entries) (r : Result (Unit {0}) × Store World) : Type 0 where
    wf : WellFormed r.1
    same_limit : r.1.max_entries ≡ limit
    room : r.0 ≡ ok tt → length r.1.entries < r.1.max_entries
    used :
        (url : String) (b : Binary)
        → lookup url before ≡ some b
        → b.reference_count ≢ 0
        → lookup url r.1.entries ≡ some b
    absent : (url : String) → lookup url before ≡ none → lookup url r.1.entries ≡ none

module _ {World : Type 0} (F : Outside World) where
  -- A failure that changes nothing of the map.
  kept-Freed :
      (s : Store World) (w : World) (r : Result (Unit {0}))
      → WellFormed s
      → r ≢ ok tt
      → Freed s.max_entries s.entries (r, record s { world = w })
  kept-Freed s w r h bad = record {
    wf = record { bounded = h.bounded; distinct = h.distinct };
    same_limit = refl;
    room = λ z. absurd (bad z);
    used = λ url b l n. l;
    absent = λ url l. l;
  }

  delete_file-Freed :
      (url : String) (o : Option Binary) (s : Store World)
      → WellFormed s
      → elem url (idle s.entries) ≡ true
      → lookup url s.entries ≡ o
      → Freed s.max_entries s.entries (delete_file F url o s)
  unfolding delete_file
  delete_file-Freed url none s h m l = kept-Freed s s.world _ h (λ z. cc)
  delete_file-Freed url (some b) s h m l =
      run-cases
        (λ q.
          Freed s.max_entries s.entries ((annotated q.0 >> forget url) (record s { world = q.1 })))
        (F.remove b.full_path) s.world
        (λ a w e. record {
          wf = record {
            bounded = omega (arith, h.bounded, length-erase url s.entries b l);
            distinct = erase-Distinct url s.entries h.distinct;
          };
          same_limit = refl;
          room = λ z. omega (arith, h.bounded, length-erase url s.entries b l);
          used = λ k c known n. elim (Bool-cases (k == url)) [
            | inl same ↦ absurd (
                n (
                  idle-lookup url s.entries c h.distinct m
                    (subst (λ x. lookup x s.entries ≡ some c) ((eq_iff k url).0 same) known)))
            | inr other ↦ lookup-erase_other url k s.entries other ∙ known
          ];
          absent = λ k known. lookup-erase-none url k s.entries known;
        })
        (λ x w e. kept-Freed s w _ h (λ z. cc)) (λ w e. kept-Freed s w _ h (λ z. cc))

  delete_entry-Freed :
      (i : ℕ) (o : Option String) (s : Store World)
      → WellFormed s
      → nth i (idle s.entries) ≡ o
      → Freed s.max_entries s.entries (delete_entry F o s)
  unfolding delete_entry
  delete_entry-Freed i none s h l = kept-Freed s s.world _ h (λ z. cc)
  delete_entry-Freed i (some url) s h l =
      delete_file-Freed url (lookup url s.entries) s h (elem-nth i (idle s.entries) url l) refl

  evict-Freed :
      (ks : List String) (s : Store World)
      → WellFormed s
      → idle s.entries ≡ ks
      → Freed s.max_entries s.entries (evict F ks s)
  unfolding evict
  evict-Freed [] s h l = kept-Freed s s.world _ h (λ z. cc)
  evict-Freed (k ∷ ks) s h l =
      run-cases
        (λ q.
          Freed s.max_entries s.entries
            (continue (λ i. delete_entry F (nth i (k ∷ ks))) q.0 (record s { world = q.1 })))
        (F.rand_int (length (k ∷ ks))) s.world
        (λ i w e.
          delete_entry-Freed i (nth i (k ∷ ks)) (record s { world = w })
            (record { bounded = h.bounded; distinct = h.distinct }) (ap (nth i) l))
        (λ x w e. kept-Freed s w _ h (λ z. cc)) (λ w e. kept-Freed s w _ h (λ z. cc))

  free_entry-Freed :
      (s : Store World) → WellFormed s → Freed s.max_entries s.entries (free_entry F s)
  unfolding free_entry
  free_entry-Freed s h = elim (Bool-cases (ltb (length s.entries) s.max_entries)) [
    | inl less ↦ simp less (record {
      wf = h;
      same_limit = refl;
      room = λ z. ltb→lt (length s.entries) s.max_entries less;
      used = λ url b l n. l;
      absent = λ url l. l;
    })
    | inr full ↦ simp full (evict-Freed (idle s.entries) s h refl)
  ]

  -- How Get ends: with a well-formed map that keeps what is in use, and if there is no error with the
  -- binary that it returns under the url.
  pub record Got (url : String) (before : Store World) (r : Result Binary × Store World)
      : Type 0 where
    pub wf : WellFormed r.1
    pub same_limit : r.1.max_entries ≡ before.max_entries
    pub used : KeepsUsed before r.1
    pub there : (b : Binary) → r.0 ≡ ok b → lookup url r.1.entries ≡ some b

  -- The download has failed after an entry was freed.
  missed-Got :
      (url : String) (s s1 : Store World)
      → Freed s.max_entries s.entries (ok tt, s1)
      → (r : Result Binary) (w : World) → ((b : Binary) → r ≢ ok b)
      → Got url s (r, record s1 { world = w })
  missed-Got url s s1 f r w bad = record {
    wf = record { bounded = f.wf.bounded; distinct = f.wf.distinct };
    same_limit = f.same_limit;
    used = λ k b known n. (b, f.used k b known n, refl, refl);
    there = λ b z. absurd (bad b z);
  }

  fetch-Got :
      (url : String) (s : Store World)
      → WellFormed s
      → lookup url s.entries ≡ none
      → Got url s (fetch F url s)
  unfolding fetch lookup Distinct
  fetch-Got url s h l =
      let freed : Freed s.max_entries s.entries (free_entry F s) = free_entry-Freed s h in
      >>=-cases (Got url s) (free_entry F) _ s
        (λ a s1 e.
          let f : Freed s.max_entries s.entries (ok a, s1) =
            subst (Freed s.max_entries s.entries) e freed in
          run-cases (λ q. Got url s (continue (enter F url) q.0 (record s1 { world = q.1 })))
            (F.download url) s1.world
            (λ path w e2. record {
              wf = record {
                bounded = omega (arith, f.room refl);
                distinct = (f.absent url l, f.wf.distinct);
              };
              same_limit = f.same_limit;
              used = λ k b known n. elim (Bool-cases (url == k)) [
                | inl same ↦ absurd (
                    cc (
                      sym l
                      ∙ subst (λ x. lookup x s.entries ≡ some b) (sym ((eq_iff url k).0 same))
                          known))
                | inr other ↦ (b, ground (arith, other, f.used k b known n), refl, refl)
              ];
              there = λ b z. ground (arith, ==_refl url, z);
            })
            (λ x w e2. missed-Got url s s1 f (err x) w (λ b z. cc))
            (λ w e2. missed-Got url s s1 f spent w (λ b z. cc)))
        (λ x s1 e.
          let f : Freed s.max_entries s.entries (err x, s1) =
            subst (Freed s.max_entries s.entries) e freed in
          record {
            wf = f.wf;
            same_limit = f.same_limit;
            used = λ k b known n. (b, f.used k b known n, refl, refl);
            there = λ b z. absurd (cc z);
          })
        (λ s1 e.
          let f : Freed s.max_entries s.entries (spent, s1) =
            subst (Freed s.max_entries s.entries) e freed in
          record {
            wf = f.wf;
            same_limit = f.same_limit;
            used = λ k b known n. (b, f.used k b known n, refl, refl);
            there = λ b z. absurd (cc z);
          })

  get_entry-Got :
      (url : String) (o : Option Binary) (s : Store World)
      → WellFormed s
      → lookup url s.entries ≡ o
      → Got url s (get_entry F url o s)
  unfolding get_entry
  get_entry-Got url none s h l = fetch-Got url s h l
  get_entry-Got url (some b) s h l = record {
    wf = record {
      bounded = omega (arith, h.bounded, length-change retain b.handle s.entries);
      distinct = change-Distinct retain b.handle s.entries h.distinct;
    };
    same_limit = refl;
    used = λ k c known n. (
      if c.handle == b.handle then retain c else c,
      lookup-change retain b.handle k s.entries c known,
      ground arith,
      ground arith,
    );
    there = λ c z.
        lookup-change retain b.handle url s.entries b l
        ∙ ground (arith, (nat_beq_iff b.handle b.handle).1 refl, z);
  }

  -- From a map that is no larger than its limit and has each url once: Get, whatever fails, leaves such
  -- a map with the same limit, and keeps every binary that has a reference under its url. Without an
  -- error the binary that it returns is in the map.
  pub get_keeps_store :
      (spec : JujuBinarySpec) (s : Store World)
      → WellFormed s
      → WellFormed (get F spec s).1
        × ((get F spec s).1.max_entries ≡ s.max_entries)
        × KeepsUsed s (get F spec s).1
        × ((b : Binary)
            → (get F spec s).0 ≡ ok b
            → (url : String) × (F.binary_url spec ≡ ok url)
              × (lookup url (get F spec s).1.entries ≡ some b))
  unfolding get
  get_keeps_store spec s h = by_url (F.binary_url spec) refl
    where
      by_url :
          (r : Result String)
          → F.binary_url spec ≡ r
          → WellFormed (continue (λ url s. get_entry F url (lookup url s.entries) s) r s).1
            × ((continue (λ url s. get_entry F url (lookup url s.entries) s) r s).1.max_entries
                ≡ s.max_entries)
            × KeepsUsed s (continue (λ url s. get_entry F url (lookup url s.entries) s) r s).1
            × ((b : Binary)
                → (continue (λ url s. get_entry F url (lookup url s.entries) s) r s).0 ≡ ok b
                → (url : String) × (F.binary_url spec ≡ ok url)
                  × (lookup url
                        (continue (λ url s. get_entry F url (lookup url s.entries) s) r s).1.entries
                      ≡ some b))
      by_url (ok url) e =
          let g = get_entry-Got url (lookup url s.entries) s h refl in
          (g.wf, g.same_limit, g.used, λ b z. (url, e, g.there b z))
      by_url (err x) e = (h, refl, λ url b l n. (b, l, refl, refl), λ b z. absurd (cc z))
      by_url spent e = (h, refl, λ url b l n. (b, l, refl, refl), λ b z. absurd (cc z))
