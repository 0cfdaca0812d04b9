-- ===== src/Interceptor/Logging.antt =====
-- interceptor.c: `interceptor`, which calls are logged and where they go on.
use operating_system_unix_li.Base.{ℕ, ◌^◌, ◌%◌, ◌≡◌, ◌≤◌, ◌<◌, ◌∙◌, some, ◌∷◌, if◌then◌else◌, arith}
use operating_system_unix_li.Interceptor.State.{Env, Handler, Kernel, PtRegs, get_entry_lem, ◌>>=◌}
use operating_system_unix_li.Interceptor.Calls.{interceptor_fn, log_message}
use operating_system_unix_li.Interceptor.Members.{check_pid_monitored-contains}
use operating_system_unix_li.Interceptor.Refinement.{IsValid}
use operating_system_unix_li.Interceptor.Watch.{watched}

abbrev pub logged : Env → PtRegs → Kernel → Kernel
logged env reg k = record k { log = record { pid = env.current_pid; regs = reg } ∷ k.log }

module _ (nr : ℕ) (env : Env) (reg : PtRegs) (k : Kernel) (known : reg.ax ≤ nr)
    (small : nr < 2 ^ 31) where
  pub interceptor_fn_lem :
      interceptor_fn nr env reg k
      ≡ some (
        (k.table reg.ax).f,
        (if watched (k.table reg.ax) env.current_pid then logged env reg k else k),
      )
  unfolding interceptor_fn log_message
  interceptor_fn_lem =
      let e : reg.ax % 2 ^ 32 ≡ reg.ax = omega arith in
      simp (e, get_entry_lem, known, interceptor_fn, ◌>>=◌)
        (ground (arith, check_pid_monitored-contains (k.table reg.ax).my_list env.current_pid))

  -- A call of an intercepted system call is logged exactly if the calling pid is watched, and goes on
  -- to the handler that stood in the table before.
  pub interceptor_fn-logs :
      (base : ℕ → Handler)
      → IsValid nr base k
      → (k.table reg.ax).intercepted ≡ 1
      → interceptor_fn nr env reg k
        ≡ some (
          base reg.ax,
          (if watched (k.table reg.ax) env.current_pid then logged env reg k else k),
        )
  interceptor_fn-logs base v on = interceptor_fn_lem ∙ ground (arith, v.hooks reg.ax known)
