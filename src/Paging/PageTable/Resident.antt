-- ===== src/Paging/PageTable/Resident.antt =====
-- pagetable.c and sim.c: which accesses of a trace are counted as hits.
use operating_system_unix_li.Base.{
  ℕ, ◌+◌, ◌*◌, ◌/◌, ◌%◌, ◌^◌, ◌≡◌, refl, sym, ap, ◌∙◌, Bool, true, false, not, ◌&&◌, ◌==◌, Option,
  none, some, List, [], ◌∷◌, if◌then◌else◌, ltb, arith,
}
use operating_system_unix_li.Paging.Machine.{Machine, M, ret, done, count, get_pte}
use operating_system_unix_li.Paging.Swap.{Disk}
use operating_system_unix_li.Paging.PageTable.{
  Policy, writes, init_second_level, get_pgdir, get_page, bump_version, miss, touch, find_physpage,
  access_mem, replay_trace,
}
use operating_system_unix_li.Paging.PageTable.Hit.{entry_of}
use operating_system_unix_li.Paging.PageTable.Moves.{
  Ends, Moves, bind-Moves, if-Moves, ret-Moves, get_page-Moves, bump_version-Moves,
}
use operating_system_unix_li.Paging.PageTable.Counts.{LeavesCounts, load, load-Moves, touch-Moves}
use operating_system_unix_li.Paging.PageTable.Checks.{check}
use operating_system_unix_li.Paging.PageTable.Miss.{not-true, not-false}
use operating_system_unix_li.Paging.PageTable.Leads.{
  After, bind-After, if-After, branch-After, After-map,
}

-- Whether the page of an address is in memory.
abbrev pub is_resident : ℕ → Machine → Bool
is_resident vaddr m = m.pgdir (vaddr / 2 ^ 24 % 2 ^ 32) && (m.ptes (entry_of vaddr)).valid

abbrev pub hit_of : Bool → ℕ
hit_of b = if b then 1 else 0

-- The accesses of a trace whose page is in memory when they come.
abbrev pub hits_along : Policy → Disk → (ℕ → Bool) → List (ℕ × ℕ) → Machine → ℕ
hits_along policy disk gives [] m = 0
hits_along policy disk gives ((type, vaddr) ∷ trace) m =
    hit_of (is_resident vaddr m) + elim (access_mem policy disk gives type vaddr m) [
      | none ↦ 0
      | some (ok, m1) ↦ hits_along policy disk gives trace m1
    ]

-- The hits are `h` more than in `m`.
abbrev Hits : {A : Type 0} → ℕ → Machine → A → Machine → Type 0
Hits h m a m1 = m1.counters.hit_count ≡ m.counters.hit_count + h

Ends-Hits :
    {A : Type 0} (r h : ℕ) (m m0 : Machine) (o : Option (A × Machine))
    → Ends 0 r m o
    → m.counters.hit_count ≡ m0.counters.hit_count + h
    → After Unit (Hits h m0) o
Ends-Hits r h m m0 none e before = tt
Ends-Hits r h m m0 (some (a, m1)) (moved, referred, same) before = same refl ∙ before

init_second_level-valid :
    (gives : Bool) (idx x : ℕ) (m : Machine)
    → After Unit
        (λ u m1. (m1.counters ≡ m.counters) × ((m1.ptes (idx * 4096 + x % 4096)).valid ≡ false))
        (init_second_level gives idx m)
unfolding init_second_level
init_second_level-valid false idx x m = tt
init_second_level-valid true idx x m =
    let inside : ((idx * 4096 + x % 4096) / 4096 == idx) ≡ true = ground arith in
    (refl, rw inside refl)

abbrev count_hit : M (Unit {0})
count_hit = count (λ c. record c { hit_count = c.hit_count + 1 })

module _ (policy : Policy) (disk : Disk) (leaves : LeavesCounts policy) where
  miss-Hits : (vaddr p : ℕ) (m : Machine) → After Unit (Hits 0 m) (miss policy disk vaddr p m)
  unfolding miss count
  miss-Hits vaddr p m =
      let m1 : Machine = record m {
        counters = record m.counters { miss_count = m.counters.miss_count + 1 };
      } in
      Ends-Hits 0 0 m1 m (load policy disk leaves vaddr p m1)
        (load-Moves policy disk leaves vaddr p m1) (omega arith)

  find_physpage-Hits :
      (gives : ℕ → Bool) (vaddr type : ℕ) (m : Machine)
      → After Unit
          (Hits (hit_of (is_resident vaddr m)) m)
          (find_physpage policy disk gives vaddr type m)
  unfolding find_physpage get_pgdir get_pte count
  find_physpage-Hits gives vaddr type m =
      let idx : ℕ = vaddr / 2 ^ 24 % 2 ^ 32 in
      let p : ℕ = entry_of vaddr in
      let h : ℕ = hit_of (is_resident vaddr m) in
      let Seen : Unit {0} → Machine → Type 0 =
        λ u m1. (m1.counters ≡ m.counters) × ((m1.ptes p).valid ≡ is_resident vaddr m) in
      bind-After Unit (λ present m1. (present ≡ m.pgdir idx) × (m1 ≡ m)) (Hits h m) (get_pgdir idx)
        _ m
        (if-After Unit (λ present m1. (present ≡ m.pgdir idx) × (m1 ≡ m)) (ltb idx 4096)
          (some (m.pgdir idx, m)) none (λ inside. (refl, refl)) (λ outside. tt))
        (λ present m1 (there, same).
          bind-After Unit Seen (Hits h m)
            (if present then done else init_second_level (gives idx) idx) _ m1
            (branch-After Unit Seen present done (init_second_level (gives idx) idx) m1
              (λ e.
                let given : m.pgdir idx ≡ true = sym there ∙ e in
                (
                  ap (λ k. k.counters) same,
                  ap (λ k. (k.ptes p).valid) same ∙ ap (λ b. b && (m.ptes p).valid) (sym given),
                ))
              (λ e.
                let missing : m.pgdir idx ≡ false = sym there ∙ e in
                After-map Unit (λ u m2. (m2.counters ≡ m1.counters) × ((m2.ptes p).valid ≡ false))
                  Seen (init_second_level (gives idx) idx m1)
                  (λ u m2 made (counted, fresh). (
                    counted ∙ ap (λ k. k.counters) same,
                    fresh ∙ ap (λ b. b && (m.ptes p).valid) (sym missing),
                  ))
                  (init_second_level-valid (gives idx) idx (vaddr / 4096) m1)))
            (λ u m2 (counters, valid).
              bind-After Unit (Hits h m) (Hits h m)
                (if not (m2.ptes p).valid then miss policy disk vaddr p else count_hit) _ m2
                (branch-After Unit (Hits h m) (not (m2.ptes p).valid) (miss policy disk vaddr p)
                  count_hit m2
                  (λ e.
                    let out : is_resident vaddr m ≡ false =
                      sym valid ∙ not-true (m2.ptes p).valid e in
                    After-map Unit (Hits 0 m2) (Hits h m) (miss policy disk vaddr p m2)
                      (λ u m3 ends kept.
                        kept
                        ∙ ap (λ c. c.hit_count + 0) counters
                        ∙ ap (λ b. m.counters.hit_count + hit_of b) (sym out))
                      (miss-Hits vaddr p m2))
                  (λ e.
                    let at : is_resident vaddr m ≡ true =
                      sym valid ∙ not-false (m2.ptes p).valid e in
                    ap (λ c. c.hit_count + 1) counters
                    ∙ ap (λ b. m.counters.hit_count + hit_of b) (sym at)))
                (λ v m3 hits.
                  Ends-Hits 1 h m3 m (touch policy disk p vaddr type m3)
                    (touch-Moves policy disk leaves p vaddr type m3) hits)))

  rest-Moves : (type vaddr frame : ℕ) → Moves 0 0 (check type vaddr frame)
  rest-Moves type vaddr frame =
      bind-Moves 0 0 0 0 (get_page frame) _ (get_page-Moves frame) (λ page.
        bind-Moves 0 0 0 0 _ _
          (if-Moves 0 0 (writes type) (bump_version frame) done (bump_version-Moves frame)
            (ret-Moves tt))
          (λ _. ret-Moves (page.checkaddr == vaddr)))

  access_mem-Hits :
      (gives : ℕ → Bool) (type vaddr : ℕ) (m : Machine)
      → After Unit
          (Hits (hit_of (is_resident vaddr m)) m)
          (access_mem policy disk gives type vaddr m)
  unfolding access_mem
  access_mem-Hits gives type vaddr m =
      let h : ℕ = hit_of (is_resident vaddr m) in
      bind-After Unit (Hits h m) (Hits h m) (find_physpage policy disk gives vaddr type)
        (check type vaddr) m (find_physpage-Hits gives vaddr type m)
        (λ frame m1 hits.
          Ends-Hits 0 h m1 m (check type vaddr frame m1) (rest-Moves type vaddr frame m1) hits)

  -- Over a trace exactly the accesses to pages in memory are counted as hits.
  pub replay_trace-Hits :
      (gives : ℕ → Bool) (trace : List (ℕ × ℕ)) (m : Machine)
      → After Unit
          (Hits (hits_along policy disk gives trace m) m)
          (replay_trace policy disk gives trace m)
  unfolding replay_trace
  replay_trace-Hits gives [] m = omega arith
  replay_trace-Hits gives ((type, vaddr) ∷ trace) m =
      let h : ℕ = hit_of (is_resident vaddr m) in
      let all : ℕ = hits_along policy disk gives ((type, vaddr) ∷ trace) m in
      let Came : Bool → Machine → Type 0 =
        λ ok m1. (access_mem policy disk gives type vaddr m ≡ some (ok, m1)) × Hits h m ok m1 in
      bind-After Unit Came (Hits all m) (access_mem policy disk gives type vaddr) _ m
        (After-map Unit (Hits h m) Came (access_mem policy disk gives type vaddr m)
          (λ ok m1 ends hits. (ends, hits)) (access_mem-Hits gives type vaddr m))
        (λ ok m1 (came, hits).
          let later : ℕ = hits_along policy disk gives trace m1 in
          let total : all ≡ h + later = rw came refl in
          bind-After Unit (Hits later m1) (Hits all m) (replay_trace policy disk gives trace)
            (λ oks. ret (ok ∷ oks)) m1 (replay_trace-Hits gives trace m1)
            (λ oks m2 more. omega (arith, more, hits, total)))
