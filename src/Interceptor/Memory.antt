-- ===== src/Interceptor/Memory.antt =====
-- interceptor.c: `my_syscall` where `kmalloc` gives no memory.
use operating_system_unix_li.Base.{
  ℕ, ◌≡◌, ◌≢◌, ◌≤◌, ◌<◌, ap, ◌∙◌, true, false, Option, some, inr, pos, arith, update_self,
}
use operating_system_unix_li.Interceptor.State.{Env, Handler, Kernel}
use operating_system_unix_li.Interceptor.PidList.{Status, success, failure, enomem, add_pid_sysc}
use operating_system_unix_li.Interceptor.Requests.{my_syscall}
use operating_system_unix_li.Interceptor.Members.{check_pid_monitored-contains}
use operating_system_unix_li.Interceptor.Effect.{
  Outcome, denied, outcome, start_outcome, stop_outcome, dispatch_lem, put,
}
use operating_system_unix_li.Interceptor.Refinement.{IsValid, HasSelf, my_syscall-dispatch}
use operating_system_unix_li.Interceptor.Watch.{Command, start, stop, code, watched}

module _ (nr : ℕ) (base : ℕ → Handler) (env : Env) (k : Kernel) (s pid u : ℕ)
    (v : IsValid nr base k) (self : HasSelf env) (low : 0 < s) (bound : s ≤ nr)
    (task : env.task_uid pid ≡ some u) (one : 0 < pid) (allowed : denied env pid ≡ false)
    (full : env.kmalloc_gives ≡ false) (on : (k.table s).intercepted ≡ 1) where
  runs :
      (c : Command)
      → let o = outcome env (code c) pid (k.table s) (k.sys_call_table s) in
        my_syscall nr env (pos (code c)) (pos s) (pos pid) k ≡ some (o.0, put k s o.1 o.2)
  runs c =
      my_syscall-dispatch nr env k c s pid low bound (inr (u, task))
      ∙ dispatch_lem nr env s k v.quiet bound pid self.0 (inr (u, task)) self.1 (code c)

  unchanged : put k s (k.table s) (k.sys_call_table s) ≡ k
  unchanged = rw (update_self k.table s, update_self k.sys_call_table s)

  start_refused :
      (k.table s).monitored ≢ 2
      → watched (k.table s) pid ≡ false
      → start_outcome env pid (k.table s) (k.sys_call_table s)
        ≡ (failure enomem, k.table s, k.sys_call_table s)
  unfolding add_pid_sysc
  start_refused some_pids new = ground (arith, check_pid_monitored-contains (k.table s).my_list pid)

  stop_lost :
      (k.table s).monitored ≡ 2
      → watched (k.table s) pid ≡ true
      → stop_outcome env pid (k.table s) (k.sys_call_table s)
        ≡ (success, k.table s, k.sys_call_table s)
  unfolding add_pid_sysc
  stop_lost all_pids old = ground (arith, check_pid_monitored-contains (k.table s).my_list pid)

  leaving :
      (st : Status) {o : Outcome}
      → o ≡ (st, k.table s, k.sys_call_table s)
      → ◌≡◌ {A = Option (Status × Kernel)} (some (o.0, put k s o.1 o.2)) (some (st, k))
  leaving st e =
      ap (λ (o : Outcome). some (o.0, put k s o.1 o.2)) e
      ∙ ap (λ (q : Kernel). some (st, q)) unchanged

  -- Without memory, starting to monitor a pid that is not monitored yet, where single pids are
  -- monitored, is refused with ENOMEM and changes nothing.
  pub start_without_memory :
      (k.table s).monitored ≢ 2
      → watched (k.table s) pid ≡ false
      → my_syscall nr env (pos 3) (pos s) (pos pid) k ≡ some (failure enomem, k)
  start_without_memory some_pids new =
      runs start ∙ leaving (failure enomem) (start_refused some_pids new)

  -- Without memory, stopping to monitor one pid where all pids are monitored reports success, and the
  -- state is the one before: the pid is still monitored.
  pub stop_without_memory :
      (k.table s).monitored ≡ 2
      → watched (k.table s) pid ≡ true
      → my_syscall nr env (pos 4) (pos s) (pos pid) k ≡ some (success, k)
  stop_without_memory all_pids old = runs stop ∙ leaving success (stop_lost all_pids old)
