-- ===== src/Interceptor/Watch.antt =====
-- interceptor.c, the abstract view: a system call is intercepted or not, and watches a set of pids.
-- The white list and the black list of `mytable` are one set here.
use operating_system_unix_li.Base.{
  ℕ, ◌≡◌, sym, Bool, true, false, not, ◌==◌, if◌then◌else◌, arith, contains, update,
}
use operating_system_unix_li.Interceptor.State.{Entry, Env, Handler}
use operating_system_unix_li.Interceptor.PidList.{
  Status, success, failure, eperm, ebusy, einval, add_pid_sysc, del_pid_sysc, stop_if_empty,
}
use operating_system_unix_li.Interceptor.Members.{check_pid_monitored-contains}
use operating_system_unix_li.Interceptor.Effect.{denied, start_outcome, stop_outcome, outcome}
use operating_system_unix_li.Interceptor.Invariant.{IsEntry, del_pid_sysc_lem}

pub record Watch : Type 0 where
  pub on : Bool
  pub watches : ℕ → Bool

abbrev pub watched : Entry → ℕ → Bool
watched e pid = if e.monitored == 2 then not (contains pid e.my_list) else contains pid e.my_list

abbrev pub view : Entry → Watch
view e = record { on = e.intercepted == 1; watches = watched e }

pub data Command : Type 0 where
  intercept release start stop : Command

-- The numbers of interceptor.h.
abbrev pub code : Command → ℕ
code intercept = 1
code release = 2
code start = 3
code stop = 4

abbrev pub is_root : Env → Bool
is_root env = env.current_uid == 0

abbrev pub nobody : ℕ → Bool
nobody pid = false

abbrev pub everybody : ℕ → Bool
everybody pid = true

-- What each command promises. Intercepting starts with nobody watched; pid 0 stands for every pid.
pub promise : Env → Command → ℕ → Watch → Status × Watch
promise env intercept pid w =
    if not (is_root env)
    then (failure eperm, w)
    else (if w.on then (failure ebusy, w) else (success, record { on = true; watches = nobody }))
promise env release pid w =
    if not (is_root env)
    then (failure eperm, w)
    else (if w.on then (success, record { on = false; watches = nobody }) else (failure einval, w))
promise env start pid w =
    if not w.on
    then (failure einval, w)
    else (if pid == 0
        then (if is_root env
            then (success, record w { watches = everybody })
            else (failure eperm, w))
        else (if denied env pid
            then (failure eperm, w)
            else (if w.watches pid
                then (failure ebusy, w)
                else (success, record w { watches = update w.watches pid true }))))
promise env stop pid w =
    if not w.on
    then (failure einval, w)
    else (if pid == 0
        then (if is_root env then (success, record w { watches = nobody }) else (failure eperm, w))
        else (if denied env pid
            then (failure eperm, w)
            else (if w.watches pid
                then (success, record w { watches = update w.watches pid false })
                else (failure einval, w))))

Watch-eq : (v w : Watch) → v.on ≡ w.on → ((p : ℕ) → v.watches p ≡ w.watches p) → v ≡ w
Watch-eq v w h g = λ i. record { on = h i; watches = λ p. g p i }

-- `o` is the promised result, and its entry looks as promised, at every pid.
abbrev Keeps : Status × Watch → Status × Entry × Handler → Type 0
Keeps (st, w) (st', e, h) =
    (st ≡ st') × ((e.intercepted == 1) ≡ w.on) × ((p : ℕ) → watched e p ≡ w.watches p)

module _ (env : Env) (pid : ℕ) (e : Entry) (h : Handler) (v : IsEntry e) where
  -- A removal, seen through the flag: it goes through, and changes what is watched at `pid` only.
  del_pid_sysc-watched :
      (q : ℕ)
      → contains pid e.my_list ≡ true
      → watched (del_pid_sysc pid e).1 q ≡ (if q == pid then e.monitored == 2 else watched e q)
  unfolding stop_if_empty
  del_pid_sysc-watched q m =
      let (qs, out, r) = del_pid_sysc_lem pid e v m in rw out (ground (arith, r.members q, v.flag))

  del_pid_sysc-intercepted :
      contains pid e.my_list ≡ true → (del_pid_sysc pid e).1.intercepted ≡ e.intercepted
  unfolding stop_if_empty
  del_pid_sysc-intercepted m = let (qs, out, r) = del_pid_sysc_lem pid e v m in rw out

  start-Keeps :
      env.kmalloc_gives ≡ true → Keeps (promise env start pid (view e)) (start_outcome env pid e h)
  unfolding promise add_pid_sysc update
  start-Keeps gives = (
    ground (arith, check_pid_monitored-contains e.my_list pid, v.flag),
    ground (arith, check_pid_monitored-contains e.my_list pid, del_pid_sysc-intercepted),
    λ p. ground (arith, check_pid_monitored-contains e.my_list pid, del_pid_sysc-watched p),
  )

  stop-Keeps :
      env.kmalloc_gives ≡ true → Keeps (promise env stop pid (view e)) (stop_outcome env pid e h)
  unfolding promise add_pid_sysc update
  stop-Keeps gives = (
    ground (arith, check_pid_monitored-contains e.my_list pid, v.flag),
    ground (arith, check_pid_monitored-contains e.my_list pid, del_pid_sysc-intercepted),
    λ p. ground (arith, check_pid_monitored-contains e.my_list pid, del_pid_sysc-watched p),
  )

  outcome-Keeps :
      (c : Command)
      → env.kmalloc_gives ≡ true
      → Keeps (promise env c pid (view e)) (outcome env (code c) pid e h)
  unfolding promise
  outcome-Keeps intercept gives = (ground arith, ground arith, λ p. ground arith)
  outcome-Keeps release gives = (ground arith, ground arith, λ p. ground arith)
  outcome-Keeps start gives = start-Keeps gives
  outcome-Keeps stop gives = stop-Keeps gives

  -- The outcome of a command, seen as a set, is what is promised.
  pub outcome-promise :
      (c : Command)
      → env.kmalloc_gives ≡ true
      → let (st, e', h') = outcome env (code c) pid e h in
        (st, view e') ≡ promise env c pid (view e)
  outcome-promise c gives =
      let (a, b, f) = outcome-Keeps c gives in λ i. (sym a i, Watch-eq _ _ b f i)
