-- ===== src/Interceptor/Calls.antt =====
-- interceptor.c: `del_pid`, `my_exit_group`, `interceptor`, `my_syscall` and the functions that it
-- calls. `nr` is NR_syscalls and `exit_nr` is __NR_exit_group, both of the kernel's headers.
use operating_system_unix_li.Base.{
  ℕ, zero, suc, ◌+◌, ◌-◌, ◌%◌, ◌^◌, Bool, true, false, none, some, ◌∷◌, ℤ, pos, negsuc, ◌==◌,
  if◌then◌else◌, update,
}
use operating_system_unix_li.Interceptor.State.{
  Handler, Entry, PtRegs, Env, M, ◌>>=◌, ◌>>◌, ret, fault, lock_pidlist, unlock_pidlist,
  lock_calltable, unlock_calltable, set_addr_rw, set_addr_ro, set_handler, get_handler, get_entry,
  modify,
}
use operating_system_unix_li.Interceptor.PidList.{
  eperm, Status, success, failure, add_pid_sysc, del_pid_sysc, sweep, destroy_list,
  check_pid_monitored,
}

-- `for (s = 1; s < NR_syscalls; s++)` of `del_pid`, with the rounds that are left.
unfoldable pub del_pid_loop : ℕ → ℕ → ℕ → (ℕ → Entry) → Bool → (ℕ → Entry) × Bool
del_pid_loop zero s pid table ispid = (table, ispid)
del_pid_loop (suc rounds) s pid table ispid =
    let (e, found) = sweep pid (table s).my_list (table s) ispid in
    del_pid_loop rounds (s + 1) pid (update table s e) found

-- `check_pid_from_list`: a pid without a task is a NULL dereference.
unfoldable pub check_pid_from_list : Env → ℕ → ℕ → M Status
check_pid_from_list env pid1 pid2 = elim (env.task_uid pid1) [
  | none ↦ fault
  | some uid1 ↦ elim (env.task_uid pid2) [
    | none ↦ fault
    | some uid2 ↦ if uid1 == uid2 then ret success else ret (failure eperm)
  ]
]

abbrev pub is_success : Status → Bool
is_success success = true
is_success (failure e) = false

unfoldable pub log_message : ℕ → PtRegs → M (Unit {0})
log_message pid reg k = some (tt, record k { log = record { pid = pid; regs = reg } ∷ k.log })

module _ (nr : ℕ) where
  -- 0, or -1 if no list held the pid.
  unfoldable pub del_pid : ℕ → M ℤ
  unfolding del_pid_loop sweep
  del_pid pid k =
      let (table, ispid) = del_pid_loop (nr - 1) 1 pid k.table false in
      some (if ispid then pos 0 else negsuc 0, record k { table = table })

  -- The handler that a call ends in is the value: `orig_exit_group(status)`.
  unfoldable pub my_exit_group : Env → M Handler
  unfolding del_pid unlock_pidlist
  my_exit_group env k =
      (do lock_pidlist; _ ← del_pid env.current_pid; unlock_pidlist; ret k.orig_exit_group) k

  -- `int sysc = reg.ax` keeps the low 32 bits; a negative `sysc` is 2 ^ 31 or more here, which is
  -- outside `table`. The value is the handler `table[sysc].f` that the call ends in.
  unfoldable pub interceptor_fn : Env → PtRegs → M Handler
  unfolding log_message
  interceptor_fn env reg = do
    let sysc = reg.ax % 2 ^ 32
    e ← get_entry nr sysc
    let ismonitered = check_pid_monitored e.my_list env.current_pid
    if e.monitored == 2
        then (if ismonitered == 1 then ret e.f else (do log_message env.current_pid reg; ret e.f))
        else (if ismonitered == 0 then ret e.f else (do log_message env.current_pid reg; ret e.f))

  unfoldable pub my_syscall_intercept : ℕ → M Status
  unfolding get_handler unlock_calltable set_addr_ro
  my_syscall_intercept s = do
    h ← get_handler s
    modify nr s (λ e. record e { f = h })
    modify nr s (λ e. record e { intercepted = 1 })
    lock_calltable
    set_addr_rw
    set_handler s Handler.interceptor
    set_addr_ro
    unlock_calltable
    ret success

  unfoldable pub my_syscall_intercept_release : ℕ → M Status
  unfolding unlock_calltable set_addr_ro destroy_list
  my_syscall_intercept_release s = do
    lock_calltable
    set_addr_rw
    modify nr s destroy_list
    e ← get_entry nr s
    set_handler s e.f
    modify nr s (λ e. record e { intercepted = 0 })
    modify nr s (λ e. record e { monitored = 0 })
    modify nr s (λ e. record e { f = Handler.null })
    set_addr_ro
    unlock_calltable
    ret success

  -- A list operation on `table[s]` with its result.
  unfoldable pub on_list : ℕ → (Entry → Status × Entry) → M Status
  on_list s op = do e ← get_entry nr s; modify nr s (λ _. (op e).1); ret (op e).0

  unfoldable pub my_syscall_stop_monitor : ℕ → ℕ → M Status
  unfolding on_list unlock_pidlist
  my_syscall_stop_monitor s pid = do
    lock_pidlist
    _ ← on_list s (del_pid_sysc pid)
    unlock_pidlist
    ret success

  unfoldable pub my_syscall_start_monitor : Env → ℕ → ℕ → M Status
  unfolding on_list unlock_pidlist
  my_syscall_start_monitor env s pid = do
    lock_pidlist
    _ ← on_list s (add_pid_sysc env pid)
    unlock_pidlist
    ret success
