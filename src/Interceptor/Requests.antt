-- ===== src/Interceptor/Requests.antt =====
-- interceptor.c: `my_syscall`, one function for each case of its switch. `nr` is NR_syscalls.
use operating_system_unix_li.Base.{
  ℕ, Bool, true, false, not, Option, none, some, ℤ, pos, negsuc, ◌&&◌, ◌||◌, ◌==◌, ltb,
  if◌then◌else◌,
}
use operating_system_unix_li.Interceptor.State.{
  Env, M, ◌>>=◌, ◌>>◌, ret, lock_pidlist, unlock_pidlist, get_entry, modify,
}
use operating_system_unix_li.Interceptor.PidList.{
  eperm, enomem, ebusy, einval, Status, success, failure, add_pid_sysc, del_pid_sysc, destroy_list,
  check_pid_monitored,
}
use operating_system_unix_li.Interceptor.Calls.{
  check_pid_from_list, is_success, my_syscall_intercept, my_syscall_intercept_release, on_list,
  my_syscall_stop_monitor,
}

abbrev pub my_custom_syscall : ℕ
my_custom_syscall = 0

abbrev pub is_negative : ℤ → Bool
is_negative (pos n) = false
is_negative (negsuc n) = true

abbrev pub to_ℕ : ℤ → ℕ
to_ℕ (pos n) = n
to_ℕ (negsuc n) = 0

-- REQUEST_SYSCALL_INTERCEPT to REQUEST_STOP_MONITORING of interceptor.h.
abbrev pub is_request : ℤ → Bool
is_request (pos n) = n == 1 || n == 2 || n == 3 || n == 4
is_request (negsuc n) = false

abbrev pub is_null : Option ℕ → Bool
is_null none = true
is_null (some u) = false

-- `isowner != 0 && current_uid() != 0`
unfoldable pub may_not_monitor : Env → ℕ → M Bool
unfolding check_pid_from_list
may_not_monitor env pid = do
  isowner ← check_pid_from_list env pid env.current_pid
  ret (not (is_success isowner) && not (env.current_uid == 0))

module _ (nr : ℕ) where
  unfoldable pub request_intercept : Env → ℕ → M Status
  request_intercept env s = do
    e ← get_entry nr s
    if not (env.current_uid == 0)
        then ret (failure eperm)
        else (if e.intercepted == 1 then ret (failure ebusy) else my_syscall_intercept nr s)

  unfoldable pub request_release : Env → ℕ → M Status
  request_release env s = do
    e ← get_entry nr s
    if not (env.current_uid == 0)
        then ret (failure eperm)
        else (if e.intercepted == 0
            then ret (failure einval)
            else my_syscall_intercept_release nr s)

  -- Adding under `pidlist_lock`, and the flag behind it.
  unfoldable pub add_monitored : Env → ℕ → ℕ → M Status
  unfolding unlock_pidlist on_list
  add_monitored env s pid = do
    lock_pidlist
    mem ← on_list nr s (add_pid_sysc env pid)
    unlock_pidlist
    if is_success mem
        then (do modify nr s (λ e. record e { monitored = 1 }); ret success)
        else ret (failure enomem)

  unfoldable pub start_all : Env → ℕ → M Status
  unfolding destroy_list
  start_all env s =
      if not (env.current_uid == 0)
      then ret (failure eperm)
      else (do modify nr s destroy_list; modify nr s (λ e. record e { monitored = 2 }); ret success)

  unfoldable pub start_one : Env → ℕ → ℕ → M Status
  unfolding may_not_monitor on_list add_monitored
  start_one env s pid = do
    denied ← may_not_monitor env pid
    e ← get_entry nr s
    let listed = check_pid_monitored e.my_list pid == 1
    if denied
        then ret (failure eperm)
        else (if e.monitored == 2
            then (if listed
                then (do _ ← on_list nr s (del_pid_sysc pid); ret success)
                else ret (failure ebusy))
            else (if listed then ret (failure ebusy) else add_monitored env s pid))

  unfoldable pub request_start : Env → ℕ → ℕ → M Status
  unfolding start_all start_one
  request_start env s pid = do
    e ← get_entry nr s
    if e.intercepted == 0
        then ret (failure einval)
        else (if pid == 0 then start_all env s else start_one env s pid)

  unfoldable pub stop_all : Env → ℕ → M Status
  unfolding destroy_list
  stop_all env s =
      if not (env.current_uid == 0)
      then ret (failure eperm)
      else (do modify nr s (λ e. record e { monitored = 0 }); modify nr s destroy_list; ret success)

  unfoldable pub stop_one : Env → ℕ → ℕ → M Status
  unfolding may_not_monitor on_list my_syscall_stop_monitor
  stop_one env s pid = do
    denied ← may_not_monitor env pid
    e ← get_entry nr s
    let unlisted = check_pid_monitored e.my_list pid == 0
    if denied
        then ret (failure eperm)
        else (if e.monitored == 2
            then (if unlisted
                then (do _ ← on_list nr s (add_pid_sysc env pid); ret success)
                else ret (failure einval))
            else (if unlisted then ret (failure einval) else my_syscall_stop_monitor nr s pid))

  unfoldable pub request_stop : Env → ℕ → ℕ → M Status
  unfolding stop_all stop_one
  request_stop env s pid = do
    e ← get_entry nr s
    if e.intercepted == 0
        then ret (failure einval)
        else (if pid == 0 then stop_all env s else stop_one env s pid)

  unfoldable pub dispatch : Env → ℕ → ℕ → ℕ → M Status
  unfolding request_intercept request_release request_start request_stop
  dispatch env cmd s pid =
      if cmd == 1
      then request_intercept env s
      else (if cmd == 2
          then request_release env s
          else (if cmd == 3 then request_start env s pid else request_stop env s pid))

  unfoldable pub my_syscall : Env → ℤ → ℤ → ℤ → M Status
  my_syscall env cmd syscall pid =
      if is_negative syscall || ltb nr (to_ℕ syscall) || to_ℕ syscall == my_custom_syscall
      then ret (failure einval)
      else (if not (is_request cmd)
          then ret (failure einval)
          else (if is_negative pid
              then ret (failure einval)
              else (if is_null (env.task_uid (to_ℕ pid)) && not (to_ℕ pid == 0)
                  then ret (failure einval)
                  else dispatch env (to_ℕ cmd) (to_ℕ syscall) (to_ℕ pid))))
