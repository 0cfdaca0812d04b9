-- ===== src/Interceptor/Exit.antt =====
-- interceptor.c: `del_pid` and `my_exit_group`, what a process leaves behind when it exits.
use operating_system_unix_li.Base.{
  ℕ, zero, suc, ◌+◌, ◌-◌, ◌≡◌, ◌≤◌, ◌<◌, refl, sym, subst, update_ne, fun_ext, ◌∙◌, ap, Bool, true,
  false, some, List, [], ◌∷◌, ◌&&◌, inl, inr, pred_ℤ, ◌==◌, ltb, leb, if◌then◌else◌, arith,
  Bool-cases, ==_iff, le→leb, lt→ltb, ==_refl, update, contains, Distinct, length,
}
use operating_system_unix_li.Interceptor.State.{
  Entry, Env, Handler, Kernel, lock_pidlist_lem, ◌>>=◌,
}
use operating_system_unix_li.Interceptor.PidList.{take_out, sweep, stop_if_empty, del_pid_sysc}
use operating_system_unix_li.Interceptor.Calls.{del_pid_loop, del_pid, my_exit_group}
use operating_system_unix_li.Interceptor.Members.{contains_eq, take_out-Removed}
use operating_system_unix_li.Interceptor.Invariant.{
  IsEntry, Hooked, del_pid_sysc_lem, del_pid_sysc-IsEntry,
}
use operating_system_unix_li.Interceptor.Refinement.{IsValid}

sweep_absent :
    (pid : ℕ) (ps : List ℕ) (e : Entry) (b : Bool)
    → contains pid ps ≡ false
    → sweep pid ps e b ≡ (record e { my_list = ps }, b)
unfolding sweep
sweep_absent pid [] e b h = refl
sweep_absent pid (p ∷ ps) e b h = ground (arith, sweep_absent pid ps e b)

sweep_present :
    (pid : ℕ) (ps qs : List ℕ) (e : Entry) (b : Bool)
    → Distinct ps
    → contains pid ps ≡ true
    → take_out pid ps ≡ some qs
    → sweep pid ps e b ≡ (
      record (stop_if_empty (record e { listcount = pred_ℤ e.listcount })) { my_list = qs },
      true,
    )
unfolding sweep take_out
sweep_present pid [] qs e b d h t = cc
sweep_present pid (p ∷ ps) qs e b d h t = elim (Bool-cases (p == pid)) [
  | inl hit ↦
      rw (hit, sweep)
        (ground (
          arith,
          contains_eq p pid ps hit,
          sweep_absent pid ps (stop_if_empty (record e { listcount = pred_ℤ e.listcount })) true,
        ))
  | inr miss ↦
      let (rs, out, r) = take_out-Removed pid ps d.1 (ground arith) in
      rw (miss, sweep) (ground (arith, out, sweep_present pid ps rs e b d.1))
]

-- The entry that `del_pid` leaves.
abbrev pub purged : ℕ → Entry → Entry
purged pid e = if contains pid e.my_list then (del_pid_sysc pid e).1 else e

sweep-purged :
    (pid : ℕ) (e : Entry) (b : Bool)
    → IsEntry e
    → sweep pid e.my_list e b ≡ (purged pid e, (if contains pid e.my_list then true else b))
unfolding del_pid_sysc stop_if_empty
sweep-purged pid e b v = elim (Bool-cases (contains pid e.my_list)) [
  | inl there ↦
      let (qs, out, r) = take_out-Removed pid e.my_list v.distinct there in
      rw (there, out, del_pid_sysc) (sweep_present pid e.my_list qs e b v.distinct there out)
  | inr gone ↦ rw gone (sweep_absent pid e.my_list e b gone)
]

pub purged-IsEntry : (pid : ℕ) (e : Entry) → IsEntry e → IsEntry (purged pid e)
purged-IsEntry pid e v = elim (Bool-cases (contains pid e.my_list)) [
  | inl there ↦ rw there (del_pid_sysc-IsEntry pid e v there)
  | inr gone ↦ rw gone v
]

-- Only the pid goes, and the other pids stay listed as they were.
pub purged-contains :
    (pid : ℕ) (e : Entry) (q : ℕ)
    → IsEntry e
    → contains q (purged pid e).my_list ≡ (if q == pid then false else contains q e.my_list)
unfolding stop_if_empty
purged-contains pid e q v = elim (Bool-cases (contains pid e.my_list)) [
  | inl there ↦ let (qs, out, r) = del_pid_sysc_lem pid e v there in rw (there, out) (r.members q)
  | inr gone ↦ rw gone (ground (arith, contains_eq q pid e.my_list))
]

-- What becomes of the flag of an entry: 0 when the last pid of a list of monitored pids has gone.
abbrev pub left_flag : ℕ → Entry → ℕ
left_flag pid e =
    if contains pid e.my_list && length e.my_list == 1 && e.monitored == 1 then 0 else e.monitored

-- The rest of the entry.
pub purged-fields :
    (pid : ℕ) (e : Entry)
    → IsEntry e
    → ((purged pid e).f ≡ e.f)
      × ((purged pid e).intercepted ≡ e.intercepted)
      × ((purged pid e).monitored ≡ left_flag pid e)
unfolding stop_if_empty
purged-fields pid e v = elim (Bool-cases (contains pid e.my_list)) [
  | inl there ↦
      let (qs, out, r) = del_pid_sysc_lem pid e v there in
      rw (there, out) (refl, refl, ground (arith, r.shorter))
  | inr gone ↦ rw gone (refl, refl, refl)
]

-- `table[i]` after the loop: swept for s ≤ i < s + rounds, and otherwise as it was.
abbrev loop_result : ℕ → ℕ → ℕ → (ℕ → Entry) → ℕ → Entry
loop_result rounds s pid table i =
    if leb s i && ltb i (s + rounds) then purged pid (table i) else table i

loop_result-suc :
    (rounds s pid : ℕ) (table : ℕ → Entry) (i : ℕ)
    → loop_result rounds (s + 1) pid (update table s (purged pid (table s))) i
      ≡ loop_result (suc rounds) s pid table i
unfolding update
loop_result-suc rounds s pid table i = elim (Bool-cases (i == s)) [
  | inl here ↦ rw ((==_iff i s).0 here, ==_refl s, update) (ground arith)
  | inr away ↦ rw (away, update) (ground arith)
]

del_pid_loop_lem :
    (rounds s pid : ℕ) (table : ℕ → Entry) (b : Bool) (i : ℕ)
    → ((j : ℕ) → s ≤ j → j < s + rounds → IsEntry (table j))
    → (del_pid_loop rounds s pid table b).0 i ≡ loop_result rounds s pid table i
unfolding del_pid_loop
del_pid_loop_lem zero s pid table b i v = ground arith
del_pid_loop_lem (suc rounds) s pid table b i v =
    let e : Entry = purged pid (table s) in
    let found : Bool = if contains pid (table s).my_list then true else b in
    rw (sweep-purged pid (table s) b (v s (omega arith) (omega arith)), del_pid_loop)
      (del_pid_loop_lem rounds (s + 1) pid (update table s e) found i (λ j lo hi.
          subst IsEntry (sym (update_ne table s e j (omega arith)))
            (v j (omega arith) (omega arith)))
        ∙ loop_result-suc rounds s pid table i)

purged-Hooked :
    (pid : ℕ) (base : Handler) (e : Entry) (h : Handler)
    → Hooked base e h
    → Hooked base (purged pid e) h
unfolding del_pid_sysc stop_if_empty
purged-Hooked pid base e h v = ground arith

-- The state that an exit leaves: the pid is gone from the entries 1 to nr - 1.
abbrev pub swept : ℕ → ℕ → Kernel → Kernel
swept nr pid k = record k {
  table = λ i. if leb 1 i && ltb i nr then purged pid (k.table i) else k.table i;
}

module _ (nr : ℕ) (base : ℕ → Handler) (env : Env) (k : Kernel) (v : IsValid nr base k)
    (some_calls : 0 < nr) where
  -- An exit goes on to the saved `exit_group`, and leaves `swept`.
  pub my_exit_group_lem :
      my_exit_group nr env k ≡ some (k.orig_exit_group, swept nr env.current_pid k)
  unfolding my_exit_group del_pid
  my_exit_group_lem =
      simp (lock_pidlist_lem, v.quiet.pidlist_free, my_exit_group, del_pid, ◌>>=◌)
        (ap
          (λ (t : ℕ → Entry).
            some (k.orig_exit_group, record k { table = t; pidlist_lock = false }))
          (fun_ext (λ i.
            del_pid_loop_lem (nr - 1) 1 env.current_pid k.table false i
              (λ j lo hi. v.entries j (omega arith))
            ∙ ground arith)))

  pub swept-IsValid : IsValid nr base (swept nr env.current_pid k)
  swept-IsValid = record {
    quiet = record {
      calltable_free = v.quiet.calltable_free;
      pidlist_free = v.quiet.pidlist_free;
      protected = v.quiet.protected;
      present = v.quiet.present;
    };
    entries = λ i b. ground (arith, v.entries i b, purged-IsEntry env.current_pid (k.table i));
    hooks = λ i b. ground (
      arith,
      v.hooks i b,
      purged-Hooked env.current_pid (base i) (k.table i) (k.sys_call_table i),
    );
  }

  -- When a process exits, the call comes back in a valid state and goes on to the saved `exit_group`;
  -- in the list of every system call from 1 to nr - 1 the pid is gone and any other pid is as
  -- before; the handler and the status of the call are as before, and its flag too, but that it is 0 if
  -- the pid was the only one of a list of monitored pids; the entries 0 and nr are untouched, and so is
  -- all that is not in the table.
  pub my_exit_group-forgets :
      (i q : ℕ)
      → 1 ≤ i
      → i < nr
      → (k' : Kernel) × (my_exit_group nr env k ≡ some (k.orig_exit_group, k'))
        × IsValid nr base k'
        × (contains q (k'.table i).my_list
            ≡ (if q == env.current_pid then false else contains q (k.table i).my_list))
        × ((k'.table i).f ≡ (k.table i).f)
        × ((k'.table i).intercepted ≡ (k.table i).intercepted)
        × ((k'.table i).monitored ≡ left_flag env.current_pid (k.table i))
        × (k'.table 0 ≡ k.table 0)
        × (k'.table nr ≡ k.table nr)
        × (k' ≡ record k { table = k'.table })
  my_exit_group-forgets i q lo hi =
      let (own, status, flag) =
        purged-fields env.current_pid (k.table i) (v.entries i (omega arith)) in
      let here : (swept nr env.current_pid k).table i ≡ purged env.current_pid (k.table i) =
        rw (le→leb 1 i lo, lt→ltb i nr hi) refl in
      (
        swept nr env.current_pid k,
        my_exit_group_lem,
        swept-IsValid,
        rw (le→leb 1 i lo, lt→ltb i nr hi)
            (purged-contains env.current_pid (k.table i) q (v.entries i (omega arith))),
        ap (λ e. e.f) here ∙ own,
        ap (λ e. e.intercepted) here ∙ status,
        ap (λ e. e.monitored) here ∙ flag,
        refl,
        ground arith,
        refl,
      )
