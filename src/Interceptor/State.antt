-- ===== src/Interceptor/State.antt =====
-- System Calls and Monitoring Processes/interceptor.c and interceptor.h: the module's globals, the
-- system-call table with its page protection, and the spinlocks, as one state that each operation
-- passes on.
use operating_system_unix_li.Base.{
  ℕ, Bool, true, false, Option, none, some, List, ℤ, ◌==◌, leb, ◌≤◌, ◌≡◌, ◌≢◌, le→leb, ne→==,
  update_same, update-update, update_self, if◌then◌else◌, update,
}

-- What a function pointer of the system-call table holds. `original n` is the kernel's own function
-- number n; the other three are the module's.
pub data Handler : Type 0 where
  null : Handler
  original : ℕ → Handler
  interceptor my_syscall my_exit_group : Handler

-- `mytable`.
pub record Entry : Type 0 where
  pub f : Handler
  pub intercepted : ℕ
  pub monitored : ℕ
  pub listcount : ℤ
  pub my_list : List ℕ

-- The registers that `log_message` prints, in its order behind the pid.
pub record PtRegs : Type 0 where
  pub ax : ℕ
  pub bx : ℕ
  pub cx : ℕ
  pub dx : ℕ
  pub si : ℕ
  pub di : ℕ
  pub bp : ℕ

pub record LogLine : Type 0 where
  pub pid : ℕ
  pub regs : PtRegs

-- The page-table entry of the page that holds the system-call table: its `_PAGE_RW` bit, and the
-- other bits as one number.
pub record Pte : Type 0 where
  pub rw_bit : Bool
  pub others : ℕ

pub record Kernel : Type 0 where
  pub table : ℕ → Entry
  pub sys_call_table : ℕ → Handler
  pub pte : Pte
  pub pidlist_lock : Bool
  pub calltable_lock : Bool
  pub orig_exit_group : Handler
  pub orig_custom_syscall : Handler
  pub log : List LogLine

-- What a call reads of the rest of the kernel: the current task, the owner of each task (`none`
-- where `pid_task(find_vpid(pid))` is NULL), and whether `kmalloc` gives memory.
pub record Env : Type 0 where
  pub current_pid : ℕ
  pub current_uid : ℕ
  pub task_uid : ℕ → Option ℕ
  pub kmalloc_gives : Bool

-- `none` is a fault: a lock taken twice, a write to a read-only page, a NULL dereference, an index
-- outside `table`.
abbrev pub M : Type 0 → Type 0
M A = Kernel → Option (A × Kernel)

infixl 5 ◌>>=◌ ◌>>◌
abbrev pub ◌>>=◌ : {A B : Type 0} → M A → (A → M B) → M B
◌>>=◌ m f k = elim (m k) [ none ↦ none | some (a, k') ↦ f a k' ]

abbrev pub ◌>>◌ : {B : Type 0} → M (Unit {0}) → M B → M B
m >> n = m >>= λ _. n

abbrev pub ret : {A : Type 0} → A → M A
ret a k = some (a, k)

abbrev pub fault : {A : Type 0} → M A
fault k = none

abbrev pub done : M (Unit {0})
done = ret tt

-- `spin_lock(&pidlist_lock)`: taking a lock that is held never returns.
unfoldable pub lock_pidlist : M (Unit {0})
lock_pidlist k = if k.pidlist_lock then none else some (tt, record k { pidlist_lock = true })

unfoldable pub unlock_pidlist : M (Unit {0})
unlock_pidlist k = some (tt, record k { pidlist_lock = false })

unfoldable pub lock_calltable : M (Unit {0})
lock_calltable k = if k.calltable_lock then none else some (tt, record k { calltable_lock = true })

unfoldable pub unlock_calltable : M (Unit {0})
unlock_calltable k = some (tt, record k { calltable_lock = false })

-- `if (pte->pte &~ _PAGE_RW) pte->pte |= _PAGE_RW;`
unfoldable pub set_addr_rw : M (Unit {0})
set_addr_rw k = some (
  tt,
  record k {
    pte = record {
      rw_bit = if k.pte.others == 0 then k.pte.rw_bit else true;
      others = k.pte.others;
    };
  },
)

-- `pte->pte = pte->pte &~_PAGE_RW;`
unfoldable pub set_addr_ro : M (Unit {0})
set_addr_ro k = some (tt, record k { pte = record { rw_bit = false; others = k.pte.others } })

-- `sys_call_table[n] = h`: the processor refuses the write while the page is read-only.
unfoldable pub set_handler : ℕ → Handler → M (Unit {0})
set_handler n h k =
    if k.pte.rw_bit
    then some (tt, record k { sys_call_table = update k.sys_call_table n h })
    else none

unfoldable pub get_handler : ℕ → M Handler
get_handler n k = some (k.sys_call_table n, k)

pub lock_pidlist_lem :
    (k : Kernel)
    → k.pidlist_lock ≡ false
    → lock_pidlist k ≡ some (tt, record k { pidlist_lock = true })
unfolding lock_pidlist
lock_pidlist_lem k h = rw h

pub lock_calltable_lem :
    (k : Kernel)
    → k.calltable_lock ≡ false
    → lock_calltable k ≡ some (tt, record k { calltable_lock = true })
unfolding lock_calltable
lock_calltable_lem k h = rw h

pub set_addr_rw_lem :
    (k : Kernel)
    → k.pte.others ≢ 0
    → set_addr_rw k ≡ some (tt, record k { pte = record { rw_bit = true; others = k.pte.others } })
unfolding set_addr_rw
set_addr_rw_lem k h = rw (ne→== _ _ h)

pub set_handler_lem :
    (n : ℕ) (h : Handler) (k : Kernel)
    → k.pte.rw_bit ≡ true
    → set_handler n h k ≡ some (tt, record k { sys_call_table = update k.sys_call_table n h })
unfolding set_handler
set_handler_lem n h k e = rw e

-- `table` has `NR_syscalls + 1` entries; `nr` stands for `NR_syscalls`.
module _ (nr : ℕ) where
  unfoldable pub get_entry : ℕ → M Entry
  get_entry n k = if leb n nr then some (k.table n, k) else none

  -- A change of the entry `table[n]`.
  unfoldable pub modify : ℕ → (Entry → Entry) → M (Unit {0})
  modify n g k =
      if leb n nr then some (tt, record k { table = update k.table n (g (k.table n)) }) else none

  pub get_entry_lem : (n : ℕ) (k : Kernel) → n ≤ nr → get_entry n k ≡ some (k.table n, k)
  unfolding get_entry
  get_entry_lem n k h = rw (le→leb n nr h)

  pub modify_lem :
      (n : ℕ) (g : Entry → Entry) (k : Kernel)
      → n ≤ nr
      → modify n g k ≡ some (tt, record k { table = update k.table n (g (k.table n)) })
  unfolding modify
  modify_lem n g k h = rw (le→leb n nr h)

pub ruleset state_laws = (
  lock_pidlist_lem, lock_calltable_lem, set_addr_rw_lem, set_handler_lem, get_entry_lem, modify_lem,
  update_same, update-update, update_self,
)
