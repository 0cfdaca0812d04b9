-- ===== src/Paging/PageTable/Checks.antt =====
-- sim.c, `access_mem` and `replay_trace`: the check of each access.
use operating_system_unix_li.Base.{
  ℕ, suc, ◌+◌, ◌*◌, ◌%◌, ◌^◌, ◌<◌, ◌≡◌, refl, sym, ap, ◌∙◌, Bool, true, some, List, [], ◌∷◌, inl,
  inr, get-length, update, update_same, update_ne, arith, Bool-cases, ◌==◌, ==_iff, if◌then◌else◌,
  ltb, lt→ltb, length, replicate,
}
use operating_system_unix_li.Paging.Machine.{Page, Machine, M, ◌>>=◌, ◌>>◌, ret, done}
use operating_system_unix_li.Paging.Swap.{Disk}
use operating_system_unix_li.Paging.PageTable.{
  Policy, writes, get_page, bump_version, find_physpage, access_mem, replay_trace,
}
use operating_system_unix_li.Paging.PageTable.Hit.{entry_of}
use operating_system_unix_li.Paging.PageTable.Leads.{After, bind-After, After-at}
use operating_system_unix_li.Paging.PageTable.Filled.{IsFilled, Loaded, LeavesPages}
use operating_system_unix_li.Paging.PageTable.Miss.{find_physpage-After}

-- The addresses of the trace are below 2^36 and those of pages.
abbrev pub ArePages : List (ℕ × ℕ) → Type 0
ArePages [] = Unit
ArePages ((type, vaddr) ∷ trace) = (vaddr < 2 ^ 36) × (vaddr % 4096 ≡ 0) × ArePages trace

bumped-IsFilled :
    (m : Machine) (frame version : ℕ)
    → IsFilled m
    → IsFilled (record m {
      physmem = update m.physmem frame (record (m.physmem frame) { version = version });
    })
bumped-IsFilled m frame version ok =
    let page : Page = record (m.physmem frame) { version = version } in
    record {
      coherent = record {
        frames = ok.coherent.frames;
        entries = ok.coherent.entries;
        tables = ok.coherent.tables;
        no_onswap = ok.coherent.no_onswap;
        swap_space = ok.coherent.swap_space;
      };
      filled = λ q valid. elim (Bool-cases ((m.ptes q).number == frame)) [
        | inl here ↦
            let same : (m.ptes q).number ≡ frame = (==_iff (m.ptes q).number frame).0 here in
            ap (λ k. k.checkaddr)
              (ap (update m.physmem frame page) same ∙ update_same m.physmem frame page)
            ∙ ap (λ k. (m.physmem k).checkaddr) (sym same)
            ∙ ok.filled q valid
        | inr differ ↦
            ap (λ k. k.checkaddr) (update_ne m.physmem frame page (m.ptes q).number (ground arith))
            ∙ ok.filled q valid
      ];
    }

-- `access_mem` behind `find_physpage`.
abbrev pub check : ℕ → ℕ → ℕ → M Bool
check type vaddr frame = get_page frame >>= λ page.
    (if writes type then bump_version frame else done) >> ret (page.checkaddr == vaddr)

pub check_lem :
    (type vaddr p frame : ℕ) (m : Machine)
    → vaddr ≡ p * 4096
    → Loaded p frame m
    → (memory : ℕ → Page) × (check type vaddr frame m ≡ some (true, record m { physmem = memory }))
      × IsFilled (record m { physmem = memory })
unfolding get_page bump_version
check_lem type vaddr p frame m address found =
    let (f, at, used, own) = found.filled.coherent.entries p found.valid in
    let inside : ltb frame (length m.coremap) ≡ true =
      ap (λ k. ltb k (length m.coremap)) (sym found.number)
      ∙ lt→ltb (m.ptes p).number (length m.coremap) (get-length m.coremap (m.ptes p).number f at) in
    let content : (m.physmem frame).checkaddr == vaddr ≡ true =
      (==_iff (m.physmem frame).checkaddr vaddr).1 (
        ap (λ k. (m.physmem k).checkaddr) (sym found.number)
        ∙ found.filled.filled p found.valid
        ∙ sym address) in
    elim (Bool-cases (writes type)) [
      | inl e ↦ (
        update m.physmem frame
            (record (m.physmem frame) { version = ((m.physmem frame).version + 1) % 2 ^ 32 }),
        simp (check, ◌>>=◌, get_page, bump_version, inside, e, content) refl,
        bumped-IsFilled m frame (((m.physmem frame).version + 1) % 2 ^ 32) found.filled,
      )
      | inr e ↦ (m.physmem, simp (check, ◌>>=◌, get_page, inside, e, content) refl, found.filled)
    ]

module _ (policy : Policy) (disk : Disk) (leaves : LeavesPages policy) where
  access_mem-After :
      (gives : ℕ → Bool) (type vaddr : ℕ) (m : Machine)
      → IsFilled m
      → vaddr < 2 ^ 36
      → vaddr % 4096 ≡ 0
      → After Unit (λ ok m1. (ok ≡ true) × IsFilled m1) (access_mem policy disk gives type vaddr m)
  unfolding access_mem
  access_mem-After gives type vaddr m ok small aligned =
      let p : ℕ = entry_of vaddr in
      let address : vaddr ≡ p * 4096 = omega (arith, small, aligned) in
      bind-After Unit (Loaded p) (λ good m1. (good ≡ true) × IsFilled m1)
        (find_physpage policy disk gives vaddr type) (check type vaddr) m
        (find_physpage-After policy disk leaves gives vaddr type m ok small aligned)
        (λ frame m1 found.
          let (memory, out, ok1) = check_lem type vaddr p frame m1 address found in
          After-at Unit (λ good m2. (good ≡ true) × IsFilled m2) (check type vaddr frame m1) _ out
            (refl, ok1))

  pub replay_trace-After :
      (gives : ℕ → Bool) (trace : List (ℕ × ℕ)) (m : Machine)
      → IsFilled m
      → ArePages trace
      → After Unit
          (λ oks m1. (oks ≡ replicate (length trace) true) × IsFilled m1)
          (replay_trace policy disk gives trace m)
  unfolding replay_trace
  replay_trace-After gives [] m ok pages = (refl, ok)
  replay_trace-After gives ((type, vaddr) ∷ trace) m ok (small, aligned, pages) =
      let n : ℕ = length trace in
      bind-After Unit (λ good m1. (good ≡ true) × IsFilled m1)
        (λ oks m1. (oks ≡ replicate (suc n) true) × IsFilled m1)
        (access_mem policy disk gives type vaddr) _ m
        (access_mem-After gives type vaddr m ok small aligned)
        (λ good m1 (is_good, ok1).
          bind-After Unit (λ oks m2. (oks ≡ replicate n true) × IsFilled m2)
            (λ oks m2. (oks ≡ replicate (suc n) true) × IsFilled m2)
            (replay_trace policy disk gives trace) (λ oks. ret (good ∷ oks)) m1
            (replay_trace-After gives trace m1 ok1 pages)
            (λ oks m2 (are_good, ok2). (rw (is_good, are_good) refl, ok2)))
