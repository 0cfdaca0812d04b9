-- ===== src/Interceptor/Init.antt =====
-- interceptor.c: `init_function` and `exit_function`. `nr` is NR_syscalls and `exit_nr` is
-- __NR_exit_group.
use operating_system_unix_li.Base.{ℕ, zero, suc, ◌+◌, false, some, [], update}
use operating_system_unix_li.Interceptor.State.{
  Handler, Entry, M, ◌>>=◌, ◌>>◌, ret, lock_pidlist, unlock_pidlist, lock_calltable,
  unlock_calltable, set_addr_rw, set_addr_ro, set_handler, get_handler,
}
use operating_system_unix_li.Interceptor.PidList.{Status, success, destroy_list}
use operating_system_unix_li.Interceptor.Requests.{my_custom_syscall}

-- `for (i = 0; i <= NR_syscalls; i++)` over the entries, with the rounds that are left.
unfoldable pub each_entry : (Entry → Entry) → ℕ → ℕ → (ℕ → Entry) → ℕ → Entry
each_entry g zero i table = table
each_entry g (suc rounds) i table = each_entry g rounds (i + 1) (update table i (g (table i)))

-- `INIT_LIST_HEAD(&table[i].my_list)`.
abbrev pub init_list_head : Entry → Entry
init_list_head e = record e { my_list = [] }

abbrev pub set_orig_custom_syscall : Handler → M (Unit {0})
set_orig_custom_syscall h k = some (tt, record k { orig_custom_syscall = h })

abbrev pub set_orig_exit_group : Handler → M (Unit {0})
set_orig_exit_group h k = some (tt, record k { orig_exit_group = h })

-- `spin_lock_init` on both locks.
abbrev pub init_locks : M (Unit {0})
init_locks k = some (tt, record k { calltable_lock = false; pidlist_lock = false })

module _ (nr exit_nr : ℕ) where
  abbrev pub for_entries : (Entry → Entry) → M (Unit {0})
  for_entries g k = some (tt, record k { table = each_entry g (suc nr) 0 k.table })

  unfoldable pub init_function : M Status
  unfolding unlock_pidlist unlock_calltable set_addr_ro get_handler
  init_function = do
    lock_calltable
    set_addr_rw
    custom ← get_handler my_custom_syscall
    set_orig_custom_syscall custom
    set_handler my_custom_syscall Handler.my_syscall
    group ← get_handler exit_nr
    set_orig_exit_group group
    set_handler exit_nr Handler.my_exit_group
    set_addr_ro
    unlock_calltable
    lock_pidlist
    for_entries init_list_head
    unlock_pidlist
    init_locks
    ret success

  unfoldable pub exit_function : M (Unit {0})
  unfolding unlock_calltable set_addr_ro destroy_list
  exit_function k =
      (do
        lock_calltable
        set_addr_rw
        set_handler my_custom_syscall k.orig_custom_syscall
        set_handler exit_nr k.orig_exit_group
        for_entries destroy_list
        set_addr_ro
        unlock_calltable)
        k
