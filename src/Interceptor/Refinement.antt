-- ===== src/Interceptor/Refinement.antt =====
-- interceptor.c: `my_syscall` on the whole state, against the promise of each command.
use operating_system_unix_li.Base.{
  ℕ, suc, ◌≡◌, ◌≢◌, ◌≤◌, ◌<◌, refl, ◌∙◌, ap, true, false, not, none, some, ◌&&◌, ◌||◌, ◌⊎◌, inl,
  inr, ℤ, pos, negsuc, ◌==◌, ltb, arith, Bool-cases, ==_iff, update, update_same,
}
use operating_system_unix_li.Interceptor.State.{Entry, Env, Handler, Kernel}
use operating_system_unix_li.Interceptor.PidList.{Status, failure, einval}
use operating_system_unix_li.Interceptor.Requests.{my_syscall, dispatch, is_request, is_null}
use operating_system_unix_li.Interceptor.Effect.{IsQuiet, outcome, Outcome, dispatch_lem, put}
use operating_system_unix_li.Interceptor.Invariant.{
  IsEntry, Hooked, outcome-IsEntry, outcome-Hooked,
}
use operating_system_unix_li.Interceptor.Watch.{
  Watch, view, Command, intercept, code, promise, outcome-promise,
}

-- The state between two calls. `base` is the system-call table as `init_function` left it.
pub record IsValid (nr : ℕ) (base : ℕ → Handler) (k : Kernel) : Type 0 where
  pub quiet : IsQuiet k
  pub entries : (i : ℕ) → i ≤ nr → IsEntry (k.table i)
  pub hooks : (i : ℕ) → i ≤ nr → Hooked (base i) (k.table i) (k.sys_call_table i)

-- `pid_task(find_vpid(pid))` finds a task, or the pid is 0.
abbrev pub IsKnown : Env → ℕ → Type 0
IsKnown env pid = (pid ≡ 0) ⊎ ((u : ℕ) × (env.task_uid pid ≡ some u))

-- The calling process has a task.
abbrev pub HasSelf : Env → Type 0
HasSelf env = (v : ℕ) × (env.task_uid env.current_pid ≡ some v)

-- The handlers that `exit_function` puts back.
abbrev pub SameSaved : Kernel → Kernel → Type 0
SameSaved k k' =
    (k'.orig_custom_syscall ≡ k.orig_custom_syscall) × (k'.orig_exit_group ≡ k.orig_exit_group)

-- What the argument checks of `my_syscall` are there to refuse.
abbrev pub IsBadCall : ℕ → Env → ℤ → ℤ → ℤ → Type 0
IsBadCall nr env cmd syscall pid =
    ((n : ℕ) × (syscall ≡ negsuc n))
    ⊎ ((n : ℕ) × (syscall ≡ pos n) × (nr < n))
    ⊎ (syscall ≡ pos 0)
    ⊎ (cmd ≢ pos 1 × cmd ≢ pos 2 × cmd ≢ pos 3 × cmd ≢ pos 4)
    ⊎ ((n : ℕ) × (pid ≡ negsuc n))
    ⊎ ((n : ℕ) × (pid ≡ pos (suc n)) × (env.task_uid (suc n) ≡ none))

put-IsValid :
    (nr : ℕ) (base : ℕ → Handler) (k : Kernel) (s : ℕ) (e : Entry) (h : Handler)
    → IsValid nr base k
    → IsEntry e
    → Hooked (base s) e h
    → IsValid nr base (put k s e h)
unfolding update
put-IsValid nr base k s e h v ve vh = record {
  quiet = record {
    calltable_free = v.quiet.calltable_free;
    pidlist_free = v.quiet.pidlist_free;
    protected = v.quiet.protected;
    present = v.quiet.present;
  };
  entries = λ i b. elim (Bool-cases (i == s)) [
    | inl here ↦ rw (here, update) ve
    | inr away ↦ rw (away, update) (v.entries i b)
  ];
  hooks = λ i b. elim (Bool-cases (i == s)) [
    | inl here ↦ rw (here, update, (==_iff i s).0 here) vh
    | inr away ↦ rw (away, update) (v.hooks i b)
  ];
}

module _ (nr : ℕ) (env : Env) (cmd syscall pid : ℤ) (k : Kernel) where
  -- A call with a bad argument is refused with EINVAL, and changes nothing.
  pub my_syscall_bad :
      IsBadCall nr env cmd syscall pid
      → my_syscall nr env cmd syscall pid k ≡ some (failure einval, k)
  unfolding my_syscall
  my_syscall_bad bad = ground arith

IsKnown-of_test :
    (env : Env) (p : ℕ) → is_null (env.task_uid p) && not (p == 0) ≡ false → IsKnown env p
IsKnown-of_test env p h = ground arith

-- The checks leave the other calls to the switch.
my_syscall_cases :
    (nr : ℕ) (env : Env) (cmd syscall pid : ℤ) (k : Kernel)
    → (my_syscall nr env cmd syscall pid k ≡ some (failure einval, k))
      ⊎ ((s n p : ℕ) × (s ≤ nr)
          × IsKnown env p
          × (my_syscall nr env cmd syscall pid k ≡ dispatch nr env n s p k))
unfolding my_syscall
my_syscall_cases nr env (pos n) (pos s) (pos p) k = elim (Bool-cases (ltb nr s || s == 0)) [
  | inl bad ↦ inl (rw (bad, my_syscall))
  | inr fine ↦ elim (Bool-cases (is_request (pos n))) [
    | inr unknown ↦ inl (rw (fine, unknown, my_syscall))
    | inl request ↦ elim (Bool-cases (is_null (env.task_uid p) && not (p == 0))) [
      | inl missing ↦ inl (rw (fine, request, missing, my_syscall))
      | inr found ↦ inr (
        s,
        n,
        p,
        ground arith,
        IsKnown-of_test env p found,
        rw (fine, request, found, my_syscall),
      )
    ]
  ]
]
my_syscall_cases nr env (negsuc n) (pos s) (pos p) k = inl (ground arith)
my_syscall_cases nr env (negsuc n) (pos s) (negsuc p) k = inl (ground arith)
my_syscall_cases nr env (pos n) (pos s) (negsuc p) k = inl (ground arith)
my_syscall_cases nr env cmd (negsuc s) pid k = inl refl

pub my_syscall-dispatch :
    (nr : ℕ) (env : Env) (k : Kernel) (c : Command) (s pid : ℕ)
    → 0 < s
    → s ≤ nr
    → IsKnown env pid
    → my_syscall nr env (pos (code c)) (pos s) (pos pid) k ≡ dispatch nr env (code c) s pid k
unfolding my_syscall
my_syscall-dispatch nr env k intercept s pid low bound known = ground arith
my_syscall-dispatch nr env k _ s pid low bound known = ground arith

-- The command returns the promised result, the view of `table[s]` becomes the promised one, and the
-- rest of both tables and the log stay.
abbrev pub Fulfils : ℕ → Env → Command → ℕ → ℕ → Kernel → Type 0
Fulfils nr env c s pid k =
    let (st, w) = promise env c pid (view (k.table s)) in
    (k' : Kernel) × (my_syscall nr env (pos (code c)) (pos s) (pos pid) k ≡ some (st, k'))
    × (view (k'.table s) ≡ w)
    × (k'.table ≡ update k.table s (k'.table s))
    × (k'.sys_call_table ≡ update k.sys_call_table s (k'.sys_call_table s))
    × (k'.log ≡ k.log)

-- The call comes back, in a valid state with the same saved handlers.
abbrev pub Returns : ℕ → (ℕ → Handler) → Env → ℤ → ℤ → ℤ → Kernel → Type 0
Returns nr base env cmd syscall pid k =
    (st : Status) × (k' : Kernel) × (my_syscall nr env cmd syscall pid k ≡ some (st, k'))
    × IsValid nr base k'
    × SameSaved k k'

module _ (nr : ℕ) (base : ℕ → Handler) (env : Env) (k : Kernel) (self : HasSelf env)
    (v : IsValid nr base k) where
  -- Whatever its arguments, a call comes back without a fault and keeps the invariant: no lock stays
  -- taken, the table's page is read-only again, every entry is in order, and the two handlers that
  -- `init_function` saved are kept.
  pub my_syscall-IsValid : (cmd syscall pid : ℤ) → Returns nr base env cmd syscall pid k
  my_syscall-IsValid cmd syscall pid = elim (my_syscall_cases nr env cmd syscall pid k) [
    | inl refused ↦ (failure einval, k, refused, v, (refl, refl))
    | inr (s, n, p, bound, known, e) ↦ (
      (outcome env n p (k.table s) (k.sys_call_table s)).0,
      _,
      e ∙ dispatch_lem nr env s k v.quiet bound p self.0 known self.1 n,
      put-IsValid nr base k s _ _ v
          (outcome-IsEntry env n p (k.table s) (k.sys_call_table s) (v.entries s bound))
          (outcome-Hooked env n p (base s) (k.table s) (k.sys_call_table s) (v.hooks s bound)),
      (refl, refl),
    )
  ]

  -- A well-formed command returns what is promised and leaves the promised view of the system call
  -- that it names, if `kmalloc` gives memory; it touches no other entry, no other slot of the table,
  -- and does not log.
  pub my_syscall-promise :
      (c : Command) (s pid : ℕ)
      → 0 < s
      → s ≤ nr
      → IsKnown env pid
      → env.kmalloc_gives ≡ true
      → Fulfils nr env c s pid k
  my_syscall-promise c s pid low bound known gives =
      let e =
        outcome-promise env pid (k.table s) (k.sys_call_table s) (v.entries s bound) c gives in
      let o : Outcome = outcome env (code c) pid (k.table s) (k.sys_call_table s) in
      let k' : Kernel = put k s o.1 o.2 in
      (
        k',
        my_syscall-dispatch nr env k c s pid low bound known
            ∙ dispatch_lem nr env s k v.quiet bound pid self.0 known self.1 (code c)
            ∙ ap (λ (r : Status × Watch). some (r.0, k')) e,
        ap view {y = o.1} (update_same k.table s o.1) ∙ ap (λ (r : Status × Watch). r.1) e,
        rw (update_same k.table s o.1),
        rw (update_same k.sys_call_table s o.2),
        refl,
      )
