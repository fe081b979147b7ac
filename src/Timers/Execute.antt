-- ===== src/Timers/Execute.antt =====
-- execute ends where every interval is positive, and calls the timers that are due.
use zmq_cn_comment.Base.{
  ℕ, zero, suc, ◌+◌, ◌^◌, ◌<◌, ◌≤◌, ◌≡◌, refl, ap, ap₂, sym, ◌∙◌, Bool, true, false, not, ◌&&◌,
  List, [], ◌∷◌, Option, none, some, Bool-cases, inl, inr, if◌then◌else◌, ltb, leb, ◌==◌, length,
  arith,
}
use zmq_cn_comment.Timers.{Timer, Entry, Timers, has, erase, insert, after, execute_loop, execute}
use zmq_cn_comment.Timers.Live.{without, live, fresh, distinct, has-erase, without-erase}

-- The timers that are due, in order.
abbrev pub due : ℕ → List Entry → List Timer
due now [] = []
due now (e ∷ es) = if ltb now e.0 then due now es else e.1 ∷ due now es

-- No time is below a bound.
abbrev pub all_from : ℕ → List Entry → Bool
all_from w [] = true
all_from w (e ∷ es) = leb w e.0 && all_from w es

abbrev pub sorted : List Entry → Bool
sorted [] = true
sorted (e ∷ es) = all_from e.0 es && sorted es

-- Every interval is positive, and the next time fits 64 bits.
abbrev pub timely : ℕ → List Entry → Bool
timely now [] = true
timely now (e ∷ es) = ltb 0 e.1.interval && (ltb (now + e.1.interval) (2 ^ 64) && timely now es)

-- The entries that the loop passes: cancelled, or due.
abbrev pending : ℕ → List ℕ → List Entry → ℕ
pending now c [] = 0
pending now c (e ∷ es) =
    (if has e.1.timer_id c then 1 else if ltb now e.0 then 0 else 1) + pending now c es

all_from_le : (w v : ℕ) (es : List Entry) → w ≤ v → all_from v es ≡ true → all_from w es ≡ true
all_from_le w v [] le h = refl
all_from_le w v (e ∷ es) le h = ground (arith, all_from_le w v es le)

all_from-insert :
    (w : ℕ) (e : Entry) (es : List Entry)
    → w ≤ e.0
    → all_from w es ≡ true
    → all_from w (insert e es) ≡ true
all_from-insert w e [] le h = ground arith
all_from-insert w e (x ∷ xs) le h = elim (Bool-cases (ltb e.0 x.0)) [
  | inl before ↦ ground arith
  | inr behind ↦ ground (arith, all_from-insert w e xs le)
]

sorted-insert : (e : Entry) (es : List Entry) → sorted es ≡ true → sorted (insert e es) ≡ true
sorted-insert e [] h = refl
sorted-insert e (x ∷ xs) h = elim (Bool-cases (ltb e.0 x.0)) [
  | inl before ↦ ground (arith, all_from_le e.0 x.0 xs)
  | inr behind ↦ ground (arith, sorted-insert e xs, all_from-insert x.0 e xs)
]

fresh-insert :
    (j : ℕ) (e : Entry) (es : List Entry)
    → fresh j (insert e es) ≡ not (j == e.1.timer_id) && fresh j es
fresh-insert j e [] = refl
fresh-insert j e (x ∷ xs) = elim (Bool-cases (ltb e.0 x.0)) [
  | inl before ↦ ground arith
  | inr behind ↦ ground (arith, fresh-insert j e xs)
]

distinct-insert :
    (e : Entry) (es : List Entry)
    → fresh e.1.timer_id es ≡ true
    → distinct es ≡ true
    → distinct (insert e es) ≡ true
distinct-insert e [] f d = refl
distinct-insert e (x ∷ xs) f d = elim (Bool-cases (ltb e.0 x.0)) [
  | inl before ↦ ground arith
  | inr behind ↦ ground (arith, distinct-insert e xs, fresh-insert x.1.timer_id e xs)
]

timely-insert :
    (now : ℕ) (e : Entry) (es : List Entry)
    → timely now (e ∷ []) ≡ true
    → timely now es ≡ true
    → timely now (insert e es) ≡ true
timely-insert now e [] h hs = h
timely-insert now e (x ∷ xs) h hs = elim (Bool-cases (ltb e.0 x.0)) [
  | inl before ↦ ground arith
  | inr behind ↦ ground (arith, timely-insert now e xs h)
]

module _ (now : ℕ) (c : List ℕ) (e : Entry) (here : has e.1.timer_id c ≡ false)
    (later : ltb now e.0 ≡ true) where
  pending-insert : (es : List Entry) → pending now c (insert e es) ≡ pending now c es
  pending-insert [] = ground arith
  pending-insert (x ∷ xs) = elim (Bool-cases (ltb e.0 x.0)) [
    | inl before ↦ ground arith
    | inr behind ↦ ground (arith, pending-insert xs)
  ]

  due-insert : (es : List Entry) → due now (without c (insert e es)) ≡ due now (without c es)
  due-insert [] = ground arith
  due-insert (x ∷ xs) = elim (Bool-cases (ltb e.0 x.0)) [
    | inl before ↦ ground arith
    | inr behind ↦ ground (arith, due-insert xs)
  ]

pending-erase :
    (now i : ℕ) (c : List ℕ) (es : List Entry)
    → fresh i es ≡ true
    → pending now (erase i c) es ≡ pending now c es
pending-erase now i c [] h = refl
pending-erase now i c (e ∷ es) h =
    let same : has e.1.timer_id (erase i c) ≡ has e.1.timer_id c =
      has-erase i e.1.timer_id c (ground arith) in
    ap₂ (λ b n. (if b then 1 else if ltb now e.0 then 0 else 1) + n) same
      (pending-erase now i c es (ground arith))

erase_absent : (i : ℕ) (c : List ℕ) → has i c ≡ false → erase i c ≡ c
erase_absent i [] h = refl
erase_absent i (j ∷ js) h = ground (arith, erase_absent i js)

due_none :
    (now w : ℕ) (c : List ℕ) (es : List Entry)
    → now < w
    → all_from w es ≡ true
    → due now (without c es) ≡ []
due_none now w c [] less h = refl
due_none now w c (e ∷ es) less h = ground (arith, due_none now w c es less)

pending-length : (now : ℕ) (c : List ℕ) (es : List Entry) → pending now c es ≤ length es
pending-length now c [] = omega arith
pending-length now c (e ∷ es) = ground (arith, pending-length now c es)

-- The loop ends, and has called the timers that are due.
Runs : ℕ → ℕ → List Entry → List ℕ → Type 0
Runs fuel now es c =
    (r : List Timer × List Entry × List ℕ) × (execute_loop fuel now es c ≡ some r)
    × (r.0 ≡ due now (without c es))

run_called :
    (fuel now : ℕ) (e : Entry) (es : List Entry) (c : List ℕ) (r : List Timer × List Entry × List ℕ)
    → has e.1.timer_id c ≡ false
    → ltb now e.0 ≡ false
    → execute_loop fuel now (insert (after now e.1.interval, e.1) es) (erase e.1.timer_id c)
      ≡ some r
    → execute_loop (suc fuel) now (e ∷ es) c ≡ some (e.1 ∷ r.0, r.1, r.2)
unfolding execute_loop
run_called fuel now e es c r here past done = rw (execute_loop, here, past, done) refl

due_called :
    (now : ℕ) (e : Entry) (es : List Entry) (c : List ℕ)
    → has e.1.timer_id c ≡ false
    → ltb now e.0 ≡ false
    → due now (without c (e ∷ es)) ≡ e.1 ∷ due now (without c es)
due_called now e es c here past =
    ap (λ b. due now (if b then without c es else e ∷ without c es)) here
    ∙ ap (λ b. if b then due now (without c es) else e.1 ∷ due now (without c es)) past

loop_lem :
    (fuel now : ℕ) (es : List Entry) (c : List ℕ)
    → pending now c es < fuel
    → sorted es ≡ true
    → distinct es ≡ true
    → timely now es ≡ true
    → Runs fuel now es c
unfolding execute_loop Runs
loop_lem zero now es c enough s d t = absurd (omega (arith, enough))
loop_lem (suc fuel) now [] c enough s d t = (([], [], c), refl, refl)
loop_lem (suc fuel) now (e ∷ es) c enough s d t = elim (Bool-cases (has e.1.timer_id c)) [
  | inl gone ↦
      let same : pending now (erase e.1.timer_id c) es ≡ pending now c es =
        pending-erase now e.1.timer_id c es (ground arith) in
      let (r, done, calls) =
        loop_lem fuel now es (erase e.1.timer_id c) (ground (arith, same, enough)) (ground arith)
          (ground arith) (ground arith) in
      (
        r,
        rw gone done,
        calls
            ∙ ap (due now) (without-erase e.1.timer_id c es (ground arith))
            ∙ ap (λ b. due now (if b then without c es else e ∷ without c es)) (sym gone),
      )
  | inr here ↦ elim (Bool-cases (ltb now e.0)) [
    | inl later ↦ (
      ([], e ∷ es, c),
      rw (execute_loop, here, later) refl,
      sym (rw (here, later) (due_none now e.0 c es (ground arith) (ground arith))),
    )
    | inr past ↦
        let again : Entry = (after now e.1.interval, e.1) in
        let next : after now e.1.interval ≡ now + e.1.interval = ground arith in
        let later : ltb now (again.0) ≡ true = ground (arith, next) in
        let (r, done, calls) =
          loop_lem fuel now (insert again es) c
            (ground (arith, pending-insert now c again here later es, enough))
            (sorted-insert again es (ground arith))
            (distinct-insert again es (ground arith) (ground arith))
            (timely-insert now again es (ground arith) (ground arith)) in
        (
          (e.1 ∷ r.0, r.1, r.2),
          run_called fuel now e es c r here past (
              ap (execute_loop fuel now (insert again es)) (erase_absent e.1.timer_id c here)
              ∙ done),
          ap (λ l. e.1 ∷ l) (calls ∙ due-insert now c again here later es)
              ∙ sym (due_called now e es c here past),
        )
  ]
]

-- execute ends with one round more than there are timers, and calls the timers that are due and not
-- cancelled, each of them once and in the order of their times. The timers are sorted, no two have
-- the same id, and every interval is positive and leads to a time of 64 bits.
pub execute-due :
    (now : ℕ) (s : Timers)
    → sorted s.timers ≡ true
    → distinct s.timers ≡ true
    → timely now s.timers ≡ true
    → (s' : Timers) × (execute (length s.timers + 1) now s ≡ some (due now (live s), s'))
unfolding execute Runs
execute-due now s h d t =
    let (r, done, calls) =
      loop_lem (length s.timers + 1) now s.timers s.cancelled_timers
        (omega (arith, pending-length now s.cancelled_timers s.timers)) h d t in
    (
      record s { timers = r.1; cancelled_timers = r.2 },
      ap
            (λ (o : Option (List Timer × List Entry × List ℕ)). elim o [
              | none ↦ none
              | some r ↦ some (r.0, record s { timers = r.1; cancelled_timers = r.2 })
            ])
            done
          ∙ ap (λ (l : List Timer). some (l, record s { timers = r.1; cancelled_timers = r.2 }))
              calls,
    )
