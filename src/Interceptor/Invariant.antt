-- ===== src/Interceptor/Invariant.antt =====
-- interceptor.c: the invariant of one entry of `table` and of its slot in the system-call table, and
-- that every request keeps it.
use operating_system_unix_li.Base.{
  ℕ, ◌≡◌, ◌≢◌, refl, true, false, List, [], ◌∷◌, ◌⊎◌, pos, suc_ℤ, arith, length, contains, Distinct,
}
use operating_system_unix_li.Interceptor.State.{Entry, Env, Handler}
use operating_system_unix_li.Interceptor.PidList.{
  success, add_pid_sysc, del_pid_sysc, stop_if_empty,
}
use operating_system_unix_li.Interceptor.Members.{
  check_pid_monitored-contains, take_out-Removed, Removed,
}
use operating_system_unix_li.Interceptor.Effect.{start_outcome, stop_outcome, outcome}

-- What `monitored` says of the list: 0, nothing is listed; 1, the list is the pids that are
-- monitored, and there are some; 2, the list is the pids that are not.
abbrev pub Flag : Entry → Type 0
Flag e =
    ((e.monitored ≡ 0) × (e.my_list ≡ []))
    ⊎ ((e.monitored ≡ 1) × (e.my_list ≢ []) × (e.intercepted ≡ 1))
    ⊎ ((e.monitored ≡ 2) × (e.intercepted ≡ 1))

pub record IsEntry (e : Entry) : Type 0 where
  pub counted : e.listcount ≡ pos (length e.my_list)
  pub distinct : Distinct e.my_list
  pub status : (e.intercepted ≡ 0) ⊎ (e.intercepted ≡ 1)
  pub flag : Flag e

-- The slot of the system-call table, against the handler `base` that was there when the module had
-- been loaded.
abbrev pub Hooked : Handler → Entry → Handler → Type 0
Hooked base e h =
    ((e.intercepted ≡ 0) × (h ≡ base))
    ⊎ ((e.intercepted ≡ 1) × (h ≡ Handler.interceptor) × (e.f ≡ base))

-- Removing a listed pid.
pub del_pid_sysc_lem :
    (pid : ℕ) (e : Entry)
    → IsEntry e
    → contains pid e.my_list ≡ true
    → (qs : List ℕ) × (del_pid_sysc pid e
        ≡ (success, stop_if_empty (record e { my_list = qs; listcount = pos (length qs) })))
      × Removed pid e.my_list qs
unfolding del_pid_sysc
del_pid_sysc_lem pid e v h =
    let (qs, out, r) = take_out-Removed pid e.my_list v.distinct h in
    (qs, rw (out, del_pid_sysc) (ground (arith, r.shorter)), r)

stop_if_empty-Flag :
    (e : Entry) (pid : ℕ) (qs : List ℕ)
    → Flag e
    → contains pid e.my_list ≡ true
    → Flag (stop_if_empty (record e { my_list = qs; listcount = pos (length qs) }))
unfolding stop_if_empty
stop_if_empty-Flag e pid [] f h = ground arith
stop_if_empty-Flag e pid (q ∷ qs) f h = ground arith

pub del_pid_sysc-IsEntry :
    (pid : ℕ) (e : Entry)
    → IsEntry e
    → contains pid e.my_list ≡ true
    → IsEntry (del_pid_sysc pid e).1
unfolding stop_if_empty
del_pid_sysc-IsEntry pid e v h =
    let (qs, out, r) = del_pid_sysc_lem pid e v h in
    rw out (record {
      counted = refl;
      distinct = r.distinct;
      status = v.status;
      flag = stop_if_empty-Flag e pid qs v.flag h;
    })

abbrev pub listed : ℕ → ℕ → Entry → Entry
listed pid m e = record e {
  my_list = pid ∷ e.my_list;
  listcount = suc_ℤ e.listcount;
  monitored = m;
}

listed-IsEntry :
    (pid m : ℕ) (e : Entry)
    → IsEntry e
    → contains pid e.my_list ≡ false
    → e.intercepted ≡ 1
    → (m ≡ 1) ⊎ (m ≡ 2)
    → IsEntry (listed pid m e)
listed-IsEntry pid m e v h i c = ground arith

start_outcome-IsEntry :
    (env : Env) (pid : ℕ) (e : Entry) (h : Handler)
    → IsEntry e
    → IsEntry (start_outcome env pid e h).1
unfolding add_pid_sysc
start_outcome-IsEntry env pid e h v = ground (
  arith,
  check_pid_monitored-contains e.my_list pid,
  del_pid_sysc-IsEntry pid e v,
  listed-IsEntry pid 1 e v,
)

stop_outcome-IsEntry :
    (env : Env) (pid : ℕ) (e : Entry) (h : Handler)
    → IsEntry e
    → IsEntry (stop_outcome env pid e h).1
unfolding add_pid_sysc
stop_outcome-IsEntry env pid e h v = ground (
  arith,
  check_pid_monitored-contains e.my_list pid,
  del_pid_sysc-IsEntry pid e v,
  listed-IsEntry pid 2 e v,
)

-- Every command keeps the invariant, on its error paths too.
pub outcome-IsEntry :
    (env : Env) (cmd pid : ℕ) (e : Entry) (h : Handler)
    → IsEntry e
    → IsEntry (outcome env cmd pid e h).1
outcome-IsEntry env cmd pid e h v =
    ground (arith, start_outcome-IsEntry env pid e h, stop_outcome-IsEntry env pid e h)

-- And the slot stays hooked exactly while the entry says so.
pub outcome-Hooked :
    (env : Env) (cmd pid : ℕ) (base : Handler) (e : Entry) (h : Handler)
    → Hooked base e h
    → Hooked base (outcome env cmd pid e h).1 (outcome env cmd pid e h).2
unfolding add_pid_sysc del_pid_sysc stop_if_empty
outcome-Hooked env cmd pid base e h v = ground arith
