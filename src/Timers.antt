-- ===== src/Timers.antt =====
-- src/timers.cpp, `timers_t`: timers in a multimap ordered by time, and the set of those that have been
-- cancelled and are still in the map. The clock is an argument, in milliseconds. A handler is a number,
-- and does not call the timers itself; the ids stay below 2 ^ 31.
pub mod Live
pub mod Execute
mod Tests
use zmq_cn_comment.Base.{
  ℕ, zero, suc, ◌+◌, ◌-◌, ◌%◌, ◌^◌, ◌≡◌, Bool, true, false, ◌||◌, List, [], ◌∷◌, ◌++◌, Option, none,
  some, if◌then◌else◌, ltb, ◌==◌,
}
use zmq_cn_comment.Errno.{Errno, efault, einval}

pub record Timer : Type 0 where
  pub timer_id : ℕ
  pub interval : ℕ
  pub handler : ℕ
  pub arg : ℕ

-- A time and the timer that expires then.
abbrev pub Entry : Type 0
Entry = ℕ × Timer

pub record Timers : Type 0 where
  pub next_timer_id : ℕ
  pub timers : List Entry
  pub cancelled_timers : List ℕ

abbrev pub start : Timers
start = record { next_timer_id = 0; timers = []; cancelled_timers = [] }

-- std::multimap inserts behind the entries with the same key.
abbrev pub insert : Entry → List Entry → List Entry
insert e [] = e ∷ []
insert e (x ∷ xs) = if ltb e.0 x.0 then e ∷ x ∷ xs else x ∷ insert e xs

-- _cancelled_timers.count
abbrev pub has : ℕ → List ℕ → Bool
has i [] = false
has i (j ∷ js) = (i == j) || has i js

-- _cancelled_timers.erase
abbrev pub erase : ℕ → List ℕ → List ℕ
erase i [] = []
erase i (j ∷ js) = if i == j then erase i js else j ∷ erase i js

-- std::find_if with match_by_id
abbrev pub find_id : ℕ → List Entry → Option Timer
find_id i [] = none
find_id i (e ∷ es) = if i == e.1.timer_id then some e.1 else find_id i es

-- The first entry with the id is erased.
abbrev pub erase_id : ℕ → List Entry → List Entry
erase_id i [] = []
erase_id i (e ∷ es) = if i == e.1.timer_id then es else e ∷ erase_id i es

-- now + interval on 64 bits
abbrev pub after : ℕ → ℕ → ℕ
after now interval = (now + interval) % 2 ^ 64

-- What add returns: the id, or the error. No handler is NULL.
pub data Added : Type 0 where
  id : ℕ → Added
  refused : Errno → Added

pub add : ℕ → ℕ → Option ℕ → ℕ → Timers → Added × Timers
add now interval none arg s = (refused efault, s)
add now interval (some handler) arg s =
    let i = s.next_timer_id + 1 in
    let t : Timer = record { timer_id = i; interval = interval; handler = handler; arg = arg } in
    (id i, record s { next_timer_id = i; timers = insert (after now interval, t) s.timers })

pub cancel : ℕ → Timers → Option Errno × Timers
cancel i s = elim (find_id i s.timers) [
  | none ↦ (some einval, s)
  | some t ↦
      if has i s.cancelled_timers
      then (some einval, s)
      else (none, record s { cancelled_timers = i ∷ s.cancelled_timers })
]

pub set_interval : ℕ → ℕ → ℕ → Timers → Option Errno × Timers
set_interval now i interval s = elim (find_id i s.timers) [
  | none ↦ (some einval, s)
  | some t ↦ (
    none,
    record s {
      timers = insert (after now interval, record t { interval = interval }) (erase_id i s.timers);
    },
  )
]

pub reset : ℕ → ℕ → Timers → Option Errno × Timers
reset now i s = elim (find_id i s.timers) [
  | none ↦ (some einval, s)
  | some t ↦ (none, record s { timers = insert (after now t.interval, t) (erase_id i s.timers) })
]

-- The cancelled timers at the front are dropped; the result is the time of the first that is not.
pub timeout_loop : List Entry → List ℕ → Option ℕ × List Entry × List ℕ
timeout_loop [] cancelled = (none, [], cancelled)
timeout_loop (e ∷ es) cancelled =
    let rest = timeout_loop es (erase e.1.timer_id cancelled) in
    if has e.1.timer_id cancelled then rest else (some e.0, e ∷ es, cancelled)

-- max (static_cast<long> (when - now), 0) of unsigned numbers of 64 bits.
abbrev pub wait : ℕ → ℕ → ℕ
wait now when =
    let difference = (when + (2 ^ 64 - now)) % 2 ^ 64 in
    if ltb difference (2 ^ 63) then difference else 0

-- No time is the result -1.
pub timeout : ℕ → Timers → Option ℕ × Timers
unfolding timeout_loop
timeout now s =
    let r = timeout_loop s.timers s.cancelled_timers in
    (
      elim r.0 [ none ↦ none | some when ↦ some (wait now when) ],
      record s { timers = r.1; cancelled_timers = r.2 },
    )

-- The timers that are called, in order, and the state after them. Fuel: none is left where the loop
-- does not end, which is so where an interval is 0.
pub execute_loop : ℕ → ℕ → List Entry → List ℕ → Option (List Timer × List Entry × List ℕ)
execute_loop zero now es cancelled = none
execute_loop (suc fuel) now [] cancelled = some ([], [], cancelled)
execute_loop (suc fuel) now (e ∷ es) cancelled =
    let i = e.1.timer_id in
    let skipped = execute_loop fuel now es (erase i cancelled) in
    let called =
      execute_loop fuel now (insert (after now e.1.interval, e.1) es) (erase i cancelled) in
    if has i cancelled
    then skipped
    else if ltb now e.0
    then some ([], e ∷ es, cancelled)
    else elim called [ none ↦ none | some r ↦ some (e.1 ∷ r.0, r.1, r.2) ]

-- The timers that execute calls, and the state after it.
pub execute : ℕ → ℕ → Timers → Option (List Timer × Timers)
unfolding execute_loop
execute fuel now s = elim (execute_loop fuel now s.timers s.cancelled_timers) [
  | none ↦ none
  | some r ↦ some (r.0, record s { timers = r.1; cancelled_timers = r.2 })
]
