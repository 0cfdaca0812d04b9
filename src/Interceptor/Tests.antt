-- ===== src/Interceptor/Tests.antt =====
-- interceptor.c: the theorems at concrete inputs, and runs of the module. Five system calls, of which
-- 3 is `exit_group`.
use operating_system_unix_li.Base.{
  ℕ, ◌≡◌, refl, true, false, none, some, [], ◌∷◌, inr, pos, ◌==◌, ◌||◌, if◌then◌else◌, arith,
  contains, update,
}
use operating_system_unix_li.Interceptor.State.{Entry, Env, Handler, Kernel, PtRegs}
use operating_system_unix_li.Interceptor.PidList.{success, failure, einval, enomem}
use operating_system_unix_li.Interceptor.Calls.{interceptor_fn, my_exit_group}
use operating_system_unix_li.Interceptor.Requests.{my_syscall}
use operating_system_unix_li.Interceptor.Init.{init_function, exit_function}
use operating_system_unix_li.Interceptor.Watch.{stop}
use operating_system_unix_li.Interceptor.Refinement.{
  IsValid, HasSelf, Fulfils, Returns, my_syscall_bad, my_syscall-IsValid, my_syscall-promise,
}
use operating_system_unix_li.Interceptor.Exit.{my_exit_group-forgets}
use operating_system_unix_li.Interceptor.Logging.{logged, interceptor_fn-logs}
use operating_system_unix_li.Interceptor.Lifetime.{
  IsBoot, IsLoaded, hijacked, here, next, command, init_function-IsLoaded, Reach-IsLoaded,
  exit_function-restores,
}
use operating_system_unix_li.Interceptor.Memory.{start_without_memory, stop_without_memory}

abbrev idle : Entry
idle = record { f = Handler.null; intercepted = 0; monitored = 0; listcount = pos 0; my_list = [] }

-- System call 2 is intercepted, and pids 7 and 8 are monitored.
abbrev some_pids : Entry
some_pids = record {
  f = Handler.original 2;
  intercepted = 1;
  monitored = 1;
  listcount = pos 2;
  my_list = 8 ∷ 7 ∷ [];
}

-- System call 4 is intercepted, and all pids but 9 are monitored.
abbrev all_but_nine : Entry
all_but_nine = record {
  f = Handler.original 4;
  intercepted = 1;
  monitored = 2;
  listcount = pos 1;
  my_list = 9 ∷ [];
}

abbrev originals : ℕ → Handler
originals = Handler.original

abbrev boot : Kernel
boot = record {
  table = λ i. idle;
  sys_call_table = originals;
  pte = record { rw_bit = false; others = 1 };
  pidlist_lock = false;
  calltable_lock = false;
  orig_exit_group = Handler.null;
  orig_custom_syscall = Handler.null;
  log = [];
}

abbrev busy : Kernel
busy = record boot {
  table = λ i. if i == 2 then some_pids else (if i == 4 then all_but_nine else idle);
  sys_call_table = λ i. if i == 2 || i == 4 then Handler.interceptor else hijacked 3 originals i;
  orig_custom_syscall = Handler.original 0;
  orig_exit_group = Handler.original 3;
}

-- Root, as process 7, with the tasks 5 to 9.
abbrev root : Env
root = record {
  current_pid = 7;
  current_uid = 0;
  task_uid = λ p. if p == 5 || p == 7 || p == 8 || p == 9 then some 0 else none;
  kmalloc_gives = true;
}

abbrev starved : Env
starved = record root { kmalloc_gives = false }

busy-IsValid : IsValid 5 (hijacked 3 originals) busy
unfolding update
busy-IsValid = record {
  quiet = record {
    calltable_free = refl;
    pidlist_free = refl;
    protected = refl;
    present = omega arith;
  };
  entries = λ i b. ground arith;
  hooks = λ i b. ground arith;
}

self : HasSelf root
self = (0, refl)

my_syscall-promise_example : Fulfils 5 root stop 4 5 busy
my_syscall-promise_example =
    my_syscall-promise 5 (hijacked 3 originals) root busy self busy-IsValid stop 4 5 (omega arith)
      (omega arith) (inr (0, refl)) refl

my_syscall-IsValid_example : Returns 5 (hijacked 3 originals) root (pos 2) (pos 2) (pos 0) busy
my_syscall-IsValid_example =
    my_syscall-IsValid 5 (hijacked 3 originals) root busy self busy-IsValid (pos 2) (pos 2) (pos 0)

my_syscall_bad_example :
    my_syscall 5 root (pos 3) (pos 2) (pos 6) busy ≡ some (failure einval, busy)
my_syscall_bad_example =
    my_syscall_bad 5 root (pos 3) (pos 2) (pos 6) busy (inr (inr (inr (inr (inr (5, refl, refl))))))

abbrev regs : PtRegs
regs = record { ax = 4; bx = 1; cx = 2; dx = 3; si = 4; di = 5; bp = 6 }

interceptor_fn-logs_example :
    interceptor_fn 5 root regs busy ≡ some (Handler.original 4, logged root regs busy)
unfolding update
interceptor_fn-logs_example =
    interceptor_fn-logs 5 root regs busy (omega arith) (omega arith) (hijacked 3 originals)
      busy-IsValid refl

my_exit_group-forgets_example :
    (k' : Kernel) × (my_exit_group 5 root busy ≡ some (Handler.original 3, k'))
    × IsValid 5 (hijacked 3 originals) k'
    × (contains 7 (k'.table 2).my_list ≡ false)
    × ((k'.table 2).f ≡ Handler.original 2)
    × ((k'.table 2).intercepted ≡ 1)
    × ((k'.table 2).monitored ≡ 1)
    × (k'.table 0 ≡ idle)
    × (k'.table 5 ≡ idle)
    × (k' ≡ record busy { table = k'.table })
my_exit_group-forgets_example =
    my_exit_group-forgets 5 (hijacked 3 originals) root busy busy-IsValid (omega arith) 2 7
      (omega arith) (omega arith)

boot-IsBoot : IsBoot 5 boot
boot-IsBoot = record {
  calltable_free = refl;
  pidlist_free = refl;
  present = omega arith;
  zeroed = λ i b. (refl, refl, refl);
}

init_function-IsLoaded_example :
    (k' : Kernel) × (init_function 5 3 boot ≡ some (success, k'))
    × IsLoaded 5 3 originals k'
    × ((k'.table 4).intercepted ≡ 0)
init_function-IsLoaded_example =
    init_function-IsLoaded 5 3 boot boot-IsBoot (omega arith) 4 (omega arith)

busy-IsLoaded : IsLoaded 5 3 originals busy
busy-IsLoaded = record { valid = busy-IsValid; custom = refl; group = refl }

-- Without memory nothing is done for the new pid 5, and the error is reported.
busy-starved : my_syscall 5 starved (pos 3) (pos 2) (pos 5) busy ≡ some (failure enomem, busy)
busy-starved =
    start_without_memory 5 (hijacked 3 originals) starved busy 2 5 0 busy-IsValid self (omega arith)
      (omega arith) refl (omega arith) refl refl refl (omega arith) refl

stop_without_memory_example :
    my_syscall 5 starved (pos 4) (pos 4) (pos 5) busy ≡ some (success, busy)
stop_without_memory_example =
    stop_without_memory 5 (hijacked 3 originals) starved busy 4 5 0 busy-IsValid self (omega arith)
      (omega arith) refl (omega arith) refl refl refl refl refl

Reach-IsLoaded_example : IsLoaded 5 3 originals busy
Reach-IsLoaded_example =
    Reach-IsLoaded 5 3 originals (omega arith) (omega arith)
      (next here (command starved (pos 3) (pos 2) (pos 5) (failure enomem) self busy-starved))
      busy-IsLoaded

exit_function-restores_example :
    (k' : Kernel) × (exit_function 5 3 busy ≡ some (tt, k'))
    × (k'.sys_call_table 4 ≡ Handler.interceptor)
    × ((k'.table 4).my_list ≡ [])
    × (k'.pte.rw_bit ≡ false)
    × (k'.calltable_lock ≡ false)
exit_function-restores_example =
    exit_function-restores 5 3 originals (omega arith) (omega arith) busy 4 busy-IsLoaded
      (omega arith) (omega arith)
