-- ===== src/Interceptor/PidList.antt =====
-- interceptor.c, the list operations: one entry's list of pids with its counter and its flag. They
-- work on the entry `table[sysc]` that the caller names.
use operating_system_unix_li.Base.{
  ℕ, Bool, true, false, Option, none, some, List, [], ◌∷◌, ℤ, pos, negsuc, suc_ℤ, pred_ℤ, ◌&&◌,
  ◌==◌, if◌then◌else◌,
}
use operating_system_unix_li.Interceptor.State.{Entry, Env}

pub data Errno : Type 0 where
  eperm enomem ebusy einval : Errno

-- The result of a call: 0, or a negated error number.
pub data Status : Type 0 where
  success : Status
  failure : Errno → Status

abbrev pub is_zero : ℤ → Bool
is_zero (pos n) = n == 0
is_zero (negsuc n) = false

-- `if (listcount == 0 && monitored == 1) monitored = 0;` after a removal.
unfoldable pub stop_if_empty : Entry → Entry
stop_if_empty e = record e {
  monitored = if is_zero e.listcount && e.monitored == 1 then 0 else e.monitored;
}

-- `add_pid_sysc`: the new pid goes to the head of the list.
unfoldable pub add_pid_sysc : Env → ℕ → Entry → Status × Entry
add_pid_sysc env pid e =
    if env.kmalloc_gives
    then (success, record e { my_list = pid ∷ e.my_list; listcount = suc_ℤ e.listcount })
    else (failure enomem, e)

-- `list_for_each` up to the first node with the pid, and the list without that node.
unfoldable pub take_out : ℕ → List ℕ → Option (List ℕ)
take_out pid [] = none
take_out pid (p ∷ ps) =
    let rest : Option (List ℕ) = elim (take_out pid ps) [ none ↦ none | some qs ↦ some (p ∷ qs) ] in
    if p == pid then some ps else rest

-- `del_pid_sysc`.
unfoldable pub del_pid_sysc : ℕ → Entry → Status × Entry
unfolding take_out stop_if_empty
del_pid_sysc pid e = elim (take_out pid e.my_list) [
  | none ↦ (failure einval, e)
  | some ps ↦ (success, stop_if_empty (record e { my_list = ps; listcount = pred_ℤ e.listcount }))
]

-- The body of `del_pid` for one entry: `list_for_each_safe` goes on behind a removed node. The list
-- argument is what the loop has still to visit, and `my_list` of the result what it leaves of that.
unfoldable pub sweep : ℕ → List ℕ → Entry → Bool → Entry × Bool
unfolding stop_if_empty
sweep pid [] e ispid = (record e { my_list = [] }, ispid)
sweep pid (p ∷ ps) e ispid =
    let hit = p == pid in
    let e' : Entry =
      if hit then stop_if_empty (record e { listcount = pred_ℤ e.listcount }) else e in
    let (r, found) = sweep pid ps e' (if hit then true else ispid) in
    (if hit then r else record r { my_list = p ∷ r.my_list }, found)

-- `destroy_list`.
unfoldable pub destroy_list : Entry → Entry
destroy_list e = record e { my_list = []; listcount = pos 0; monitored = 0 }

-- `check_pid_monitored`: 1 if the pid is in the list.
unfoldable pub check_pid_monitored : List ℕ → ℕ → ℕ
check_pid_monitored [] pid = 0
check_pid_monitored (p ∷ ps) pid =
    let rest = check_pid_monitored ps pid in if p == pid then 1 else rest
