-- ===== src/Paging/PageTable/Slots.antt =====
-- pagetable.c: a page that leaves memory takes the space in the swap file that was left for it.
use operating_system_unix_li.Base.{
  ℕ, ◌+◌, ◌/◌, ◌^◌, ◌≤◌, ◌<◌, ◌≡◌, refl, sym, ap, subst, ◌∙◌, Bool, true, false, none, some, List,
  inl, inr, contains, update, update_same, update_ne, arith, Bool-cases, Option-cases, ◌==◌, ==_iff,
}
use operating_system_unix_li.Paging.Bitmap.{Bitmap}
use operating_system_unix_li.Paging.Bitmap.Space.{Tracks}
use operating_system_unix_li.Paging.Machine.{Pte, Page, Counters, Machine}
use operating_system_unix_li.Paging.PageTable.Allocate.{turned}
use operating_system_unix_li.Paging.PageTable.Room.{
  IsReady, has_slot, waiting, waiting_mono, waiting_drop,
}
use operating_system_unix_li.Paging.PageTable.Written.{SlotAfter, Slotted, HasRoom, needs}
use operating_system_unix_li.Paging.PageTable.Ready.{IsReady-entry, update-listed}

module _ (pages : List ℕ) (K : List ℕ → Type 0) where
  no_slot : (m : Machine) (q : ℕ) → (m.ptes q).swap_off ≡ none → has_slot m q ≡ false
  no_slot m q e = elim (Bool-cases (m.pgdir (q / 4096))) [
    | inl table ↦ rw (table, e) refl
    | inr table ↦ rw table refl
  ]

  -- A page of the list that has no space still waits for it.
  needs-waiting :
      (m : Machine) (q : ℕ)
      → contains q pages ≡ true
      → needs (m.ptes q).swap_off ≤ waiting (has_slot m) pages
  needs-waiting m q at = elim (Option-cases (m.ptes q).swap_off) [
    | inr (o, e) ↦ rw e (omega arith)
    | inl e ↦
        let more : waiting (λ k. true) pages + 1 ≤ waiting (has_slot m) pages =
          waiting_drop (has_slot m) (λ k. true) q pages (λ k slot. refl) (no_slot m q e) refl at in
        rw e (omega (arith, more))
  ]

  pub HasRoom-IsReady :
      (m : Machine) (q : ℕ) (ok : IsReady pages K m)
      → (m.ptes q).valid ≡ true
      → m.pgdir (q / 4096) ≡ true
      → HasRoom (m.ptes q).swap_off ok.used m.swapmap
  HasRoom-IsReady m q ok valid table =
      let need : needs (m.ptes q).swap_off ≤ waiting (has_slot m) pages =
        needs-waiting m q (ok.listed q valid) in
      record {
        tracks = ok.tracks;
        room = omega (arith, need, ok.room);
        small = ok.small;
        low = λ o e. ok.slots q o table e;
      }

  module _ (m : Machine) (q o : ℕ) (e : Pte) (off : e.swap_off ≡ some o)
      (table : m.pgdir (q / 4096) ≡ true) where
    abbrev with_slot : Machine
    with_slot = record m { ptes = update m.ptes q e }

    with_slot_here : has_slot with_slot q ≡ true
    with_slot_here = rw (table, update_same m.ptes q e, off) refl

    with_slot_kept : (k : ℕ) → has_slot m k ≡ true → has_slot with_slot k ≡ true
    with_slot_kept k slot = elim (Bool-cases (k == q)) [
      | inl here ↦ ap (has_slot with_slot) ((==_iff k q).0 here) ∙ with_slot_here
      | inr differ ↦ rw (update_ne m.ptes q e k (ground arith)) slot
    ]

    waiting-with_slot :
        contains q pages ≡ true
        → waiting (has_slot with_slot) pages + needs (m.ptes q).swap_off
          ≤ waiting (has_slot m) pages
    waiting-with_slot at = elim (Option-cases (m.ptes q).swap_off) [
      | inr (old, had) ↦
          let less : waiting (has_slot with_slot) pages ≤ waiting (has_slot m) pages =
            waiting_mono (has_slot m) (has_slot with_slot) pages with_slot_kept in
          rw had (omega (arith, less))
      | inl had ↦
          let less : waiting (has_slot with_slot) pages + 1 ≤ waiting (has_slot m) pages =
            waiting_drop (has_slot m) (has_slot with_slot) q pages with_slot_kept (no_slot m q had)
              with_slot_here at in
          rw had less
    ]

  turned-IsReady_more :
      (m : Machine) (q o : ℕ) (e : Pte) (b : Bitmap) (file : List (ℕ × Page)) (c : Counters)
      (used' : List Bool) (ok : IsReady pages K m)
      → (m.ptes q).valid ≡ true
      → m.pgdir (q / 4096) ≡ true
      → e.swap_off ≡ some o
      → Slotted (m.ptes q).swap_off o ok.used used' b
      → IsReady pages K (turned q e b file c m)
  turned-IsReady_more m q o e b file c used' ok valid table off new =
      let less = waiting-with_slot m q o e off table (ok.listed q valid) in
      record {
        used = used';
        tracks = new.tracks;
        room = omega (arith, less, ok.room, new.more, new.len);
        small = omega (arith, ok.small, new.len);
        listed = λ k k_valid. update-listed pages K m q k e ok (ok.listed q valid) k_valid;
        slots = λ k p k_table k_off. elim (Bool-cases (k == q)) [
          | inl here ↦
              let at : (update m.ptes q e k).swap_off ≡ some o =
                ap (λ x. (update m.ptes q e x).swap_off) ((==_iff k q).0 here)
                ∙ ap (λ x. x.swap_off) (update_same m.ptes q e)
                ∙ off in
              let same : o ≡ p = cc (sym at ∙ k_off) in subst (λ x. x < 2 ^ 31) same new.low
          | inr differ ↦
              ok.slots k p k_table
                (sym (ap (λ x. x.swap_off) (update_ne m.ptes q e k (ground arith))) ∙ k_off)
        ];
        memory = ok.memory;
        future = ok.future;
      }

  IsReady-swap :
      (m : Machine) (b : Bitmap) (file : List (ℕ × Page)) (c : Counters) (ok : IsReady pages K m)
      → Tracks ok.used b
      → IsReady pages K (record m { swapmap = b; swapfile = file; counters = c })
  IsReady-swap m b file c ok t = record {
    used = ok.used;
    tracks = t;
    room = ok.room;
    small = ok.small;
    listed = ok.listed;
    slots = ok.slots;
    memory = ok.memory;
    future = ok.future;
  }

  pub turned-IsReady :
      (m : Machine) (q : ℕ) (e : Pte) (b : Bitmap) (file : List (ℕ × Page)) (c : Counters)
      (used' : List Bool) (ok : IsReady pages K m)
      → (m.ptes q).valid ≡ true
      → m.pgdir (q / 4096) ≡ true
      → SlotAfter (m.ptes q).swap_off e.swap_off ok.used used' b
      → IsReady pages K (turned q e b file c m)
  turned-IsReady m q e b file c used' ok valid table after = elim after [
    | inl (same, like, t) ↦
        IsReady-entry pages K (record m { swapmap = b; swapfile = file; counters = c }) q e
          m.coremap (IsReady-swap m b file c ok (subst (λ u. Tracks u b) like t))
          (ok.listed q valid) same refl
    | inr (o, off, new) ↦ turned-IsReady_more m q o e b file c used' ok valid table off new
  ]
