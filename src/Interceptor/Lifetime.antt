-- ===== src/Interceptor/Lifetime.antt =====
-- interceptor.c: the module from `init_function` over any history of calls to `exit_function`.
use operating_system_unix_li.Base.{
  ℕ, zero, suc, ◌+◌, ◌^◌, ◌≡◌, ◌≢◌, ◌≤◌, ◌<◌, refl, subst, ◌∙◌, Bool, true, false, Option, some, [],
  inl, inr, ℤ, pos, ◌==◌, leb, ltb, ◌&&◌, ◌||◌, if◌then◌else◌, arith, Bool-cases, ==_iff, ==_refl,
  update, update_ne,
}
use operating_system_unix_li.Interceptor.State.{
  Entry, Env, Handler, Kernel, PtRegs, state_laws, ◌>>=◌,
}
use operating_system_unix_li.Interceptor.PidList.{Status, success, destroy_list}
use operating_system_unix_li.Interceptor.Calls.{interceptor_fn, my_exit_group}
use operating_system_unix_li.Interceptor.Requests.{my_syscall}
use operating_system_unix_li.Interceptor.Init.{
  each_entry, init_list_head, init_function, exit_function,
}
use operating_system_unix_li.Interceptor.Exit.{my_exit_group_lem, swept-IsValid}
use operating_system_unix_li.Interceptor.Logging.{logged, interceptor_fn_lem}
use operating_system_unix_li.Interceptor.Watch.{watched}
use operating_system_unix_li.Interceptor.Refinement.{IsValid, HasSelf, my_syscall-IsValid}

-- `table[j]` after a loop over the entries i to i + rounds - 1.
each_entry_lem :
    (g : Entry → Entry) (rounds i : ℕ) (table : ℕ → Entry) (j : ℕ)
    → each_entry g rounds i table j
      ≡ (if leb i j && ltb j (i + rounds) then g (table j) else table j)
unfolding each_entry update
each_entry_lem g zero i table j = ground arith
each_entry_lem g (suc rounds) i table j =
    each_entry_lem g rounds (i + 1) (update table i (g (table i))) j ∙ elim (Bool-cases (j == i)) [
      | inl here ↦ rw ((==_iff j i).0 here, ==_refl i, update) (ground arith)
      | inr away ↦ rw (away, update) (ground arith)
    ]

-- The kernel before the module is loaded: the globals are zero and the locks are free.
pub record IsBoot (nr : ℕ) (k : Kernel) : Type 0 where
  pub calltable_free : k.calltable_lock ≡ false
  pub pidlist_free : k.pidlist_lock ≡ false
  pub present : k.pte.others ≢ 0
  pub zeroed :
      (i : ℕ)
      → i ≤ nr
      → ((k.table i).intercepted ≡ 0)
        × ((k.table i).monitored ≡ 0)
        × ((k.table i).listcount ≡ pos 0)

-- The table with the two hijacked calls.
abbrev pub hijacked : ℕ → (ℕ → Handler) → ℕ → Handler
hijacked exit_nr original =
    update (update original 0 Handler.my_syscall) exit_nr Handler.my_exit_group

-- The loaded module, over the table `original` of the kernel.
pub record IsLoaded (nr exit_nr : ℕ) (original : ℕ → Handler) (k : Kernel) : Type 0 where
  pub valid : IsValid nr (hijacked exit_nr original) k
  pub custom : k.orig_custom_syscall ≡ original 0
  pub group : k.orig_exit_group ≡ original exit_nr

module _ (nr exit_nr : ℕ) (k : Kernel) (boot : IsBoot nr k) (other : 0 < exit_nr) where
  abbrev loaded : Kernel
  loaded = record k {
    table = each_entry init_list_head (suc nr) 0 k.table;
    sys_call_table = hijacked exit_nr k.sys_call_table;
    orig_custom_syscall = k.sys_call_table 0;
    orig_exit_group = k.sys_call_table exit_nr;
    pte = record { rw_bit = false; others = k.pte.others };
    calltable_lock = false;
    pidlist_lock = false;
  }

  init_function_lem : init_function nr exit_nr k ≡ some (success, loaded)
  unfolding init_function
  init_function_lem =
      simp (state_laws, boot.calltable_free, boot.pidlist_free, boot.present, init_function, ◌>>=◌)
        (ground (arith, update_ne k.sys_call_table 0 Handler.my_syscall exit_nr))

  entry_lem : (i : ℕ) → i ≤ nr → loaded.table i ≡ init_list_head (k.table i)
  entry_lem i b = each_entry_lem init_list_head (suc nr) 0 k.table i ∙ ground arith

  loaded-IsLoaded : IsLoaded nr exit_nr k.sys_call_table loaded
  loaded-IsLoaded = record {
    valid = record {
      quiet = record {
        calltable_free = refl;
        pidlist_free = refl;
        protected = refl;
        present = boot.present;
      };
      entries = λ i b. rw (entry_lem i b) (ground (arith, boot.zeroed i b));
      hooks = λ i b. rw (entry_lem i b) (ground (arith, boot.zeroed i b));
    };
    custom = refl;
    group = refl;
  }

  -- Loading the module succeeds: the two calls are hijacked, their handlers are saved, the state is
  -- valid, and no system call is intercepted.
  pub init_function-IsLoaded :
      (i : ℕ)
      → i ≤ nr
      → (k' : Kernel) × (init_function nr exit_nr k ≡ some (success, k'))
        × IsLoaded nr exit_nr k.sys_call_table k'
        × ((k'.table i).intercepted ≡ 0)
  init_function-IsLoaded i b =
      (loaded, init_function_lem, loaded-IsLoaded, rw (entry_lem i b) (boot.zeroed i b).0)

-- One call that enters the loaded module: a command, an exit, or an intercepted system call.
pub data Step (nr : ℕ) : Kernel → Kernel → Type 0 where
  command :
      (env : Env) (cmd syscall pid : ℤ) (st : Status) {k k' : Kernel}
      → HasSelf env
      → my_syscall nr env cmd syscall pid k ≡ some (st, k')
      → Step nr k k'
  exits :
      (env : Env) (h : Handler) {k k' : Kernel}
      → my_exit_group nr env k ≡ some (h, k')
      → Step nr k k'
  enters :
      (env : Env) (reg : PtRegs) (h : Handler) {k k' : Kernel}
      → reg.ax ≤ nr
      → interceptor_fn nr env reg k ≡ some (h, k')
      → Step nr k k'

pub data Reach (nr : ℕ) (k : Kernel) : Kernel → Type 0 where
  here : Reach nr k k
  next : {k' k'' : Kernel} → Reach nr k k' → Step nr k' k'' → Reach nr k k''

same_result :
    {A : Type 0} {o : Option (A × Kernel)} {a b : A} {k k' : Kernel}
    → o ≡ some (a, k)
    → o ≡ some (b, k')
    → k ≡ k'
same_result e f = cc

module _ (nr exit_nr : ℕ) (original : ℕ → Handler) (low : 0 < nr) (small : nr < 2 ^ 31) where
  log-IsLoaded :
      (env : Env) (reg : PtRegs) (k : Kernel) (b : Bool)
      → IsLoaded nr exit_nr original k
      → IsLoaded nr exit_nr original (if b then logged env reg k else k)
  log-IsLoaded env reg k false l = l
  log-IsLoaded env reg k true l = record {
    valid = record {
      quiet = record {
        calltable_free = l.valid.quiet.calltable_free;
        pidlist_free = l.valid.quiet.pidlist_free;
        protected = l.valid.quiet.protected;
        present = l.valid.quiet.present;
      };
      entries = l.valid.entries;
      hooks = l.valid.hooks;
    };
    custom = l.custom;
    group = l.group;
  }

  Step-IsLoaded :
      {k k' : Kernel}
      → Step nr k k'
      → IsLoaded nr exit_nr original k
      → IsLoaded nr exit_nr original k'
  Step-IsLoaded (command env cmd syscall pid st {k} {k'} self e) l =
      let (st', k'', e', v, saved) =
        my_syscall-IsValid nr (hijacked exit_nr original) env k self l.valid cmd syscall pid in
      subst (IsLoaded nr exit_nr original) (same_result e' e)
        (record { valid = v; custom = saved.0 ∙ l.custom; group = saved.1 ∙ l.group })
  Step-IsLoaded (exits env h {k} {k'} e) l =
      subst (IsLoaded nr exit_nr original)
        (same_result (my_exit_group_lem nr (hijacked exit_nr original) env k l.valid low) e)
        (record {
          valid = swept-IsValid nr (hijacked exit_nr original) env k l.valid low;
          custom = l.custom;
          group = l.group;
        })
  Step-IsLoaded (enters env reg h {k} {k'} b e) l =
      subst (IsLoaded nr exit_nr original) (same_result (interceptor_fn_lem nr env reg k b small) e)
        (log-IsLoaded env reg k (watched (k.table reg.ax) env.current_pid) l)

  -- Every history of calls from a loaded state leaves a loaded state.
  pub Reach-IsLoaded :
      {k k' : Kernel}
      → Reach nr k k'
      → IsLoaded nr exit_nr original k
      → IsLoaded nr exit_nr original k'
  Reach-IsLoaded here l = l
  Reach-IsLoaded (next r st) l = Step-IsLoaded st (Reach-IsLoaded r l)

  -- Unloading succeeds: the slots of the two hijacked calls hold the kernel's handlers again, and so
  -- does every other slot that is not intercepted; one that is still intercepted keeps the module's
  -- `interceptor`. Every list is empty, the page is read-only and the lock is free.
  pub exit_function-restores :
      (k : Kernel) (i : ℕ)
      → IsLoaded nr exit_nr original k
      → 0 < exit_nr
      → i ≤ nr
      → (k' : Kernel) × (exit_function nr exit_nr k ≡ some (tt, k'))
        × (k'.sys_call_table i ≡ (
            if i == 0 || i == exit_nr
            then original i
            else (if (k.table i).intercepted == 1 then Handler.interceptor else original i)))
        × ((k'.table i).my_list ≡ [])
        × (k'.pte.rw_bit ≡ false)
        × (k'.calltable_lock ≡ false)
  unfolding exit_function destroy_list update
  exit_function-restores k i l other b = (
    record k {
      table = each_entry destroy_list (suc nr) 0 k.table;
      sys_call_table =
          update (update k.sys_call_table 0 k.orig_custom_syscall) exit_nr k.orig_exit_group;
      pte = record { rw_bit = false; others = k.pte.others };
      calltable_lock = false;
    },
    simp (state_laws, l.valid.quiet.calltable_free, l.valid.quiet.present, exit_function, ◌>>=◌),
    ground (arith, l.valid.hooks i b, l.custom, l.group),
    rw (each_entry_lem destroy_list (suc nr) 0 k.table i) (ground arith),
    refl,
    refl,
  )
