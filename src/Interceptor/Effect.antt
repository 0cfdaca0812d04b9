-- ===== src/Interceptor/Effect.antt =====
-- interceptor.c: what each case of `my_syscall` does to the state, with the locks and the page
-- protection worked out.
use operating_system_unix_li.Base.{
  ℕ, ◌≤◌, ◌≡◌, ◌≢◌, inl, inr, ◌⊎◌, Bool-cases, Bool, false, not, Option, none, some, pos, ◌&&◌,
  ◌==◌, if◌then◌else◌, update, arith, update_self, [],
}
use operating_system_unix_li.Interceptor.State.{
  Handler, Entry, Env, Kernel, null, state_laws, ◌>>=◌,
}
use operating_system_unix_li.Interceptor.PidList.{
  eperm, enomem, ebusy, einval, Status, success, failure, add_pid_sysc, del_pid_sysc,
  check_pid_monitored,
}
use operating_system_unix_li.Interceptor.Calls.{
  is_success, my_syscall_intercept, my_syscall_intercept_release, my_syscall_stop_monitor,
  check_pid_from_list, on_list,
}
use operating_system_unix_li.Interceptor.Requests.{
  request_intercept, request_release, may_not_monitor, add_monitored, start_all, start_one,
  request_start, stop_all, stop_one, request_stop, dispatch,
}

-- The module is at rest: no lock is held, and the table's page is present and read-only.
pub record IsQuiet (k : Kernel) : Type 0 where
  pub calltable_free : k.calltable_lock ≡ false
  pub pidlist_free : k.pidlist_lock ≡ false
  pub protected : k.pte.rw_bit ≡ false
  pub present : k.pte.others ≢ 0

-- The state with `table[s]` and `sys_call_table[s]` given anew.
abbrev pub put : Kernel → ℕ → Entry → Handler → Kernel
put k s e h = record k { table = update k.table s e; sys_call_table = update k.sys_call_table s h }

-- The result of a request, the entry and the handler that it leaves.
abbrev pub Outcome : Type 0
Outcome = Status × Entry × Handler

abbrev pub destroyed : Entry → ℕ → Entry
destroyed e flag = record e { my_list = []; listcount = pos 0; monitored = flag }

abbrev pub intercept_outcome : Env → Entry → Handler → Outcome
intercept_outcome env e h =
    if not (env.current_uid == 0)
    then (failure eperm, e, h)
    else (if e.intercepted == 1
        then (failure ebusy, e, h)
        else (success, record e { f = h; intercepted = 1 }, Handler.interceptor))

abbrev pub release_outcome : Env → Entry → Handler → Outcome
release_outcome env e h =
    if not (env.current_uid == 0)
    then (failure eperm, e, h)
    else (if e.intercepted == 0
        then (failure einval, e, h)
        else (success, record (destroyed e 0) { f = null; intercepted = 0 }, e.f))

abbrev pub all_outcome : ℕ → Env → Entry → Handler → Outcome
all_outcome flag env e h =
    if not (env.current_uid == 0) then (failure eperm, e, h) else (success, destroyed e flag, h)

-- The ownership test of the monitoring commands.
abbrev pub denied : Env → ℕ → Bool
denied env pid = elim (env.task_uid pid) [
  | none ↦ false
  | some u ↦ elim (env.task_uid env.current_pid) [
    | none ↦ false
    | some v ↦ not (u == v) && not (env.current_uid == 0)
  ]
]

abbrev pub start_one_outcome : Env → ℕ → Entry → Handler → Outcome
start_one_outcome env pid e h =
    if denied env pid
    then (failure eperm, e, h)
    else (if e.monitored == 2
        then (if check_pid_monitored e.my_list pid == 1
            then (success, (del_pid_sysc pid e).1, h)
            else (failure ebusy, e, h))
        else (if check_pid_monitored e.my_list pid == 1
            then (failure ebusy, e, h)
            else (if is_success (add_pid_sysc env pid e).0
                then (success, record (add_pid_sysc env pid e).1 { monitored = 1 }, h)
                else (failure enomem, (add_pid_sysc env pid e).1, h))))

abbrev pub stop_one_outcome : Env → ℕ → Entry → Handler → Outcome
stop_one_outcome env pid e h =
    if denied env pid
    then (failure eperm, e, h)
    else (if e.monitored == 2
        then (if check_pid_monitored e.my_list pid == 0
            then (success, (add_pid_sysc env pid e).1, h)
            else (failure einval, e, h))
        else (if check_pid_monitored e.my_list pid == 0
            then (failure einval, e, h)
            else (success, (del_pid_sysc pid e).1, h)))

abbrev pub start_outcome : Env → ℕ → Entry → Handler → Outcome
start_outcome env pid e h =
    if e.intercepted == 0
    then (failure einval, e, h)
    else (if pid == 0 then all_outcome 2 env e h else start_one_outcome env pid e h)

abbrev pub stop_outcome : Env → ℕ → Entry → Handler → Outcome
stop_outcome env pid e h =
    if e.intercepted == 0
    then (failure einval, e, h)
    else (if pid == 0 then all_outcome 0 env e h else stop_one_outcome env pid e h)

abbrev pub outcome : Env → ℕ → ℕ → Entry → Handler → Outcome
outcome env cmd pid e h =
    if cmd == 1
    then intercept_outcome env e h
    else (if cmd == 2
        then release_outcome env e h
        else (if cmd == 3 then start_outcome env pid e h else stop_outcome env pid e h))

module _ (nr : ℕ) (env : Env) (s : ℕ) (k : Kernel) (quiet : IsQuiet k) (bound : s ≤ nr) where
  abbrev leaves : (Entry → Handler → Outcome) → Option (Status × Kernel)
  leaves o = let (st, e, h) = o (k.table s) (k.sys_call_table s) in some (st, put k s e h)

  put_self : put k s (k.table s) (k.sys_call_table s) ≡ k
  put_self = rw (update_self k.table s, update_self k.sys_call_table s)

  my_syscall_intercept_lem :
      my_syscall_intercept nr s k
      ≡ some (
        success,
        put k s
            (record (k.table s) { f = k.sys_call_table s; intercepted = 1 })
            Handler.interceptor,
      )
  unfolding my_syscall_intercept
  my_syscall_intercept_lem =
      simp (state_laws, bound, quiet.calltable_free, quiet.present, my_syscall_intercept, ◌>>=◌)
        (ground arith)

  my_syscall_intercept_release_lem :
      my_syscall_intercept_release nr s k
      ≡ some (
        success,
        put k s (record (destroyed (k.table s) 0) { f = null; intercepted = 0 }) (k.table s).f,
      )
  unfolding my_syscall_intercept_release
  my_syscall_intercept_release_lem =
      simp
        (
          state_laws, bound, quiet.calltable_free, quiet.present, my_syscall_intercept_release,
          ◌>>=◌,
        )
        (ground arith)

  pub request_intercept_lem : request_intercept nr env s k ≡ leaves (intercept_outcome env)
  unfolding request_intercept
  request_intercept_lem =
      simp (state_laws, bound, request_intercept, ◌>>=◌)
        (ground (arith, put_self, my_syscall_intercept_lem))

  pub request_release_lem : request_release nr env s k ≡ leaves (release_outcome env)
  unfolding request_release
  request_release_lem =
      simp (state_laws, bound, request_release, ◌>>=◌)
        (ground (arith, put_self, my_syscall_intercept_release_lem))

  start_all_lem : start_all nr env s k ≡ leaves (all_outcome 2 env)
  unfolding start_all
  start_all_lem = elim (Bool-cases (env.current_uid == 0)) [
    | inl root ↦ simp (root, state_laws, bound, update_self k.sys_call_table s, start_all, ◌>>=◌)
    | inr other ↦ simp (other, put_self, start_all)
  ]

  stop_all_lem : stop_all nr env s k ≡ leaves (all_outcome 0 env)
  unfolding stop_all
  stop_all_lem = elim (Bool-cases (env.current_uid == 0)) [
    | inl root ↦ simp (root, state_laws, bound, update_self k.sys_call_table s, stop_all, ◌>>=◌)
    | inr other ↦ simp (other, put_self, stop_all)
  ]

  add_monitored_lem :
      (pid : ℕ)
      → add_monitored nr env s pid k ≡ (
          if is_success (add_pid_sysc env pid (k.table s)).0
          then some (
            success,
            put k s
                (record (add_pid_sysc env pid (k.table s)).1 { monitored = 1 })
                (k.sys_call_table s),
          )
          else some
              (failure enomem, put k s (add_pid_sysc env pid (k.table s)).1 (k.sys_call_table s)))
  unfolding add_monitored on_list
  add_monitored_lem pid = elim (Bool-cases (is_success (add_pid_sysc env pid (k.table s)).0)) [
    | inl got ↦ simp (
      got,
      state_laws,
      bound,
      quiet.pidlist_free,
      update_self k.sys_call_table s,
      add_monitored,
      ◌>>=◌,
    )
    | inr full ↦ simp (
      full,
      state_laws,
      bound,
      quiet.pidlist_free,
      update_self k.sys_call_table s,
      add_monitored,
      ◌>>=◌,
    )
  ]

  stop_monitor_lem :
      (pid : ℕ)
      → my_syscall_stop_monitor nr s pid k
        ≡ some (success, put k s (del_pid_sysc pid (k.table s)).1 (k.sys_call_table s))
  unfolding my_syscall_stop_monitor on_list
  stop_monitor_lem pid = simp (
    state_laws,
    bound,
    quiet.pidlist_free,
    update_self k.sys_call_table s,
    my_syscall_stop_monitor,
    ◌>>=◌,
  )

  -- Both tasks exist, with the owners `u` and `v`.
  module _ (pid u v : ℕ) (task : env.task_uid pid ≡ some u)
      (self : env.task_uid env.current_pid ≡ some v) where
    may_not_monitor_lem : may_not_monitor env pid k ≡ some (denied env pid, k)
    unfolding may_not_monitor
    may_not_monitor_lem =
        simp (task, self, may_not_monitor, check_pid_from_list, ◌>>=◌) (ground arith)

    start_one_lem : start_one nr env s pid k ≡ leaves (start_one_outcome env pid)
    unfolding start_one on_list
    start_one_lem =
        simp (state_laws, bound, may_not_monitor_lem, start_one, ◌>>=◌)
          (ground (arith, put_self, add_monitored_lem pid))

    stop_one_lem : stop_one nr env s pid k ≡ leaves (stop_one_outcome env pid)
    unfolding stop_one on_list
    stop_one_lem =
        simp (state_laws, bound, may_not_monitor_lem, stop_one, ◌>>=◌)
          (ground (arith, put_self, stop_monitor_lem pid))

  module _ (pid v : ℕ) (known : (pid ≡ 0) ⊎ ((u : ℕ) × (env.task_uid pid ≡ some u)))
      (self : env.task_uid env.current_pid ≡ some v) where
    request_start_lem : request_start nr env s pid k ≡ leaves (start_outcome env pid)
    unfolding request_start
    request_start_lem = elim known [
      | inl all ↦
          simp (state_laws, bound, all, request_start, ◌>>=◌)
            (ground (arith, put_self, start_all_lem))
      | inr (u, task) ↦
          simp (state_laws, bound, request_start, ◌>>=◌)
            (ground (arith, put_self, start_all_lem, start_one_lem pid u v task self))
    ]

    request_stop_lem : request_stop nr env s pid k ≡ leaves (stop_outcome env pid)
    unfolding request_stop
    request_stop_lem = elim known [
      | inl all ↦
          simp (state_laws, bound, all, request_stop, ◌>>=◌)
            (ground (arith, put_self, stop_all_lem))
      | inr (u, task) ↦
          simp (state_laws, bound, request_stop, ◌>>=◌)
            (ground (arith, put_self, stop_all_lem, stop_one_lem pid u v task self))
    ]

    -- The whole switch of `my_syscall`.
    pub dispatch_lem : (cmd : ℕ) → dispatch nr env cmd s pid k ≡ leaves (outcome env cmd pid)
    unfolding dispatch
    dispatch_lem cmd =
        ground
          (arith, request_intercept_lem, request_release_lem, request_start_lem, request_stop_lem)
