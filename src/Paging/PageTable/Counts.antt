-- ===== src/Paging/PageTable/Counts.antt =====
-- The counters of the simulator over a trace.
use operating_system_unix_li.Base.{
  ℕ, ◌+◌, ◌*◌, ◌/◌, ◌%◌, ◌^◌, refl, subst, ◌==◌, Bool, true, false, not, Option, none, some, List,
  [], ◌∷◌, if◌then◌else◌, length, arith,
}
use operating_system_unix_li.Paging.Machine.{
  Machine, M, ◌>>=◌, set_pte, ◌>>◌, ret, done, stop, get_pte, get_frame,
}
use operating_system_unix_li.Paging.Swap.{Disk, swap_pageout, swap_pagein}
use operating_system_unix_li.Paging.PageTable.{
  Policy, first_free, get_pgdir, init_frame, get_page, bump_version, install, write_back, turn_out,
  allocate_frame, miss, touch, find_physpage, access_mem, replay_trace, writes,
}
use operating_system_unix_li.Paging.PageTable.Moves.{
  Ends, Ends-bind, Moves, bind-Moves, option-Moves, if-Moves, ret-Moves, get_pte-Moves,
  set_pte-Moves, get_frame-Moves, set_frame-Moves, count-Moves, get_pgdir-Moves,
  init_second_level-Moves, init_frame-Moves, get_page-Moves, bump_version-Moves, swap_pageout-Moves,
  swap_pagein-Moves,
}

install-Moves : (frame p : ℕ) → Moves 0 0 (install frame p)
unfolding install
install-Moves frame p = bind-Moves 0 0 0 0 _ _ (set_frame-Moves frame _) (λ _. set_pte-Moves p _)

write_back-Moves : (disk : Disk) (frame q : ℕ) → Moves 0 0 (write_back disk frame q)
unfolding write_back
write_back-Moves disk frame q = bind-Moves 0 0 0 0 (get_pte q) _ (get_pte-Moves q) (λ e.
    bind-Moves 0 0 0 0 (swap_pageout disk (frame / 4096) e.swap_off) _
      (swap_pageout-Moves disk (frame / 4096) e.swap_off)
      (λ offset. bind-Moves 0 0 0 0 _ _ (set_pte-Moves q _) (λ _.
        option-Moves 0 0 offset (ret false) _ (ret-Moves false) (λ o.
          bind-Moves 0 0 0 0 _ _ (set_pte-Moves q _) (λ _.
            bind-Moves 0 0 0 0 _ _
              (count-Moves 0 0 _ (λ c. omega arith) (λ c. omega arith) (λ no c. refl))
              (λ _. ret-Moves true))))))

turn_out-Moves : (disk : Disk) (frame : ℕ) → Moves 0 0 (turn_out disk frame)
unfolding turn_out
turn_out-Moves disk frame = bind-Moves 0 0 0 0 (get_frame frame) _ (get_frame-Moves frame) (λ f.
    bind-Moves 0 0 0 0 _ _ (set_pte-Moves f.pte _) (λ _.
      bind-Moves 0 0 0 0 (get_pte f.pte) _ (get_pte-Moves f.pte) (λ e.
        bind-Moves 0 0 0 0 _ _
          (if-Moves 0 0 e.dirty (write_back disk frame f.pte) _ (write_back-Moves disk frame f.pte)
            (bind-Moves 0 0 0 0 _ _
              (count-Moves 0 0 _ (λ c. omega arith) (λ c. omega arith) (λ no c. refl))
              (λ _. ret-Moves true)))
          (λ written.
            bind-Moves 0 0 0 0 (get_pte f.pte) _ (get_pte-Moves f.pte)
              (λ e'. ret-Moves (if written then some e'.number else none))))))

shift :
    {A : Type 0} (n : ℕ) (m : Machine) (o : Option (A × Machine))
    → Ends (n + 0) (n + 0) m o
    → Ends n n m o
shift n m none h = tt
shift n m (some (a, m1)) (h, k, l) = (omega arith, omega arith, λ no. l (omega (arith, no)))

-- An algorithm that leaves the counters alone.
abbrev pub LeavesCounts : Policy → Type 0
LeavesCounts policy = ((p : ℕ) → Moves 0 0 (policy.ref_fcn p)) × Moves 0 0 policy.evict_fcn

module _ (policy : Policy) (disk : Disk) (leaves : LeavesCounts policy) where
  kept-Moves : (p i : ℕ) → Moves {A = Option ℕ} 0 0 (install i p >> ret (some i))
  kept-Moves p i =
      bind-Moves 0 0 0 0 (install i p) (λ _. ret (some i)) (install-Moves i p)
        (λ _. ret-Moves (some i))

  found-Moves :
      (p : ℕ) (found : Option ℕ)
      → Moves {A = Option ℕ} 0 0
          (elim found [ none ↦ ret none | some i ↦ install i p >> ret (some i) ])
  found-Moves p none = ret-Moves {A = Option ℕ} none
  found-Moves p (some i) = kept-Moves p i

  turned-Moves :
      (p frame : ℕ)
      → Moves {A = Option ℕ} 0 0 (do
        found ← turn_out disk frame
        elim found [ none ↦ ret none | some i ↦ install i p >> ret (some i) ])
  turned-Moves p frame =
      bind-Moves 0 0 0 0 (turn_out disk frame) _ (turn_out-Moves disk frame) (found-Moves p)

  taken-Ends :
      (p : ℕ) (m : Machine) (o : Option ℕ)
      → Ends {A = Option ℕ} 0 0 m (elim o [
        | some i ↦ (install i p >> ret (some i)) m
        | none ↦
            (do
              frame ← policy.evict_fcn
              found ← turn_out disk frame
              elim found [ none ↦ ret none | some i ↦ install i p >> ret (some i) ])
              m
      ])
  taken-Ends p m (some i) = kept-Moves p i m
  taken-Ends p m none = Ends-bind 0 0 0 0 m (policy.evict_fcn m) _ (leaves.1 m) (turned-Moves p)

  allocate_frame-Moves : (p : ℕ) → Moves 0 0 (allocate_frame policy disk p)
  unfolding allocate_frame
  allocate_frame-Moves p m = taken-Ends p m (first_free 0 m.coremap)

  -- Where `miss` loads the page, behind the count.
  abbrev pub load : ℕ → ℕ → M (Unit {0})
  load vaddr p = get_pte p >>= λ e.
      if not e.onswap
      then (do
        set_pte p (λ e. record e { dirty = true })
        frame ← allocate_frame policy disk p
        elim frame [ none ↦ stop | some i ↦ init_frame i vaddr ])
      else (do
        frame ← allocate_frame policy disk p
        e' ← get_pte p
        read ← swap_pagein disk e'.number e'.swap_off
        if read then done else stop)

  pub load-Moves : (vaddr p : ℕ) → Moves 0 0 (load vaddr p)
  load-Moves vaddr p = bind-Moves 0 0 0 0 (get_pte p) _ (get_pte-Moves p) (λ e.
      if-Moves 0 0 (not e.onswap) _ _
        (bind-Moves 0 0 0 0 _ _ (set_pte-Moves p _) (λ _.
          bind-Moves 0 0 0 0 (allocate_frame policy disk p) _ (allocate_frame-Moves p) (λ frame.
            option-Moves 0 0 frame stop (λ i. init_frame i vaddr) (λ m. tt)
              (λ i. init_frame-Moves i vaddr))))
        (bind-Moves 0 0 0 0 (allocate_frame policy disk p) _ (allocate_frame-Moves p) (λ frame.
          bind-Moves 0 0 0 0 (get_pte p) _ (get_pte-Moves p) (λ e'.
            bind-Moves 0 0 0 0 (swap_pagein disk e'.number e'.swap_off) _
              (swap_pagein-Moves disk e'.number e'.swap_off)
              (λ read. if-Moves 0 0 read done stop (ret-Moves tt) (λ m. tt))))))

  miss-Moves : (vaddr p : ℕ) → Moves 1 0 (miss policy disk vaddr p)
  unfolding miss
  miss-Moves vaddr p =
      bind-Moves 1 0 0 0 _ _
        (count-Moves 1 0 _ (λ c. omega arith) (λ c. omega arith) (λ no. absurd (omega (arith, no))))
        (λ _. load-Moves vaddr p)

  pub touch-Moves : (p vaddr type : ℕ) → Moves 0 1 (touch policy disk p vaddr type)
  unfolding touch
  touch-Moves p vaddr type = bind-Moves 0 0 0 1 _ _ (set_pte-Moves p _) (λ _.
      bind-Moves 0 0 0 1 _ _ (if-Moves 0 0 (writes type) _ done (set_pte-Moves p _) (ret-Moves tt))
        (λ _. bind-Moves 0 0 0 1 _ _ (set_pte-Moves p _) (λ _.
          bind-Moves 0 0 0 1 (get_pte p) _ (get_pte-Moves p) (λ e.
            bind-Moves 0 0 0 1 _ _ (set_frame-Moves e.number _) (λ _.
              bind-Moves 0 0 0 1 (policy.ref_fcn p) _ (leaves.0 p) (λ _.
                bind-Moves 0 1 0 0 _ _
                  (count-Moves 0 1 _ (λ c. omega arith) (λ c. omega arith) (λ no c. refl))
                  (λ _.
                    bind-Moves 0 0 0 0 (get_pte p) _ (get_pte-Moves p)
                      (λ e'. ret-Moves e'.number))))))))

  find_physpage-Moves :
      (gives : ℕ → Bool) (vaddr type : ℕ) → Moves 1 1 (find_physpage policy disk gives vaddr type)
  unfolding find_physpage
  find_physpage-Moves gives vaddr type =
      let idx = vaddr / 2 ^ 24 % 2 ^ 32 in
      let p = idx * 4096 + vaddr / 4096 % 4096 in
      bind-Moves 0 0 1 1 (get_pgdir idx) _ (get_pgdir-Moves idx) (λ present.
        bind-Moves 0 0 1 1 _ _
          (if-Moves 0 0 present done _ (ret-Moves tt) (init_second_level-Moves (gives idx) idx))
          (λ _. bind-Moves 0 0 1 1 (get_pte p) _ (get_pte-Moves p) (λ e.
            bind-Moves 1 0 0 1 _ _
              (if-Moves 1 0 (not e.valid) (miss policy disk vaddr p) _ (miss-Moves vaddr p) (
                count-Moves 1 0 _ (λ c. omega arith) (λ c. omega arith)
                  (λ no. absurd (omega (arith, no)))))
              (λ _. touch-Moves p vaddr type))))

  access_mem-Moves :
      (gives : ℕ → Bool) (type vaddr : ℕ) → Moves 1 1 (access_mem policy disk gives type vaddr)
  unfolding access_mem
  access_mem-Moves gives type vaddr =
      bind-Moves 1 1 0 0 (find_physpage policy disk gives vaddr type) _
        (find_physpage-Moves gives vaddr type)
        (λ frame. bind-Moves 0 0 0 0 (get_page frame) _ (get_page-Moves frame) (λ page.
          bind-Moves 0 0 0 0 _ _
            (if-Moves 0 0 (writes type) (bump_version frame) done (bump_version-Moves frame)
              (ret-Moves tt))
            (λ _. ret-Moves (page.checkaddr == vaddr))))

  pub replay_trace-Moves :
      (gives : ℕ → Bool) (trace : List (ℕ × ℕ))
      → Moves (length trace) (length trace) (replay_trace policy disk gives trace)
  unfolding replay_trace
  replay_trace-Moves gives [] = ret-Moves {A = List Bool} []
  replay_trace-Moves gives ((type, vaddr) ∷ trace) =
      let n = length trace in
      subst (λ k. Moves k k (replay_trace policy disk gives ((type, vaddr) ∷ trace))) (omega arith)
        (bind-Moves 1 1 n n (access_mem policy disk gives type vaddr) _
          (access_mem-Moves gives type vaddr)
          (λ ok m. shift n m _ (
            bind-Moves n n 0 0 (replay_trace policy disk gives trace) _
              (replay_trace-Moves gives trace) (λ oks. ret-Moves (ok ∷ oks)) m)))
