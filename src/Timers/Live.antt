-- ===== src/Timers/Live.antt =====
-- The timers that have not been cancelled, and what timeout and cancel do to them.
use zmq_cn_comment.Base.{
  ℕ, ◌-◌, ◌^◌, ◌<◌, ◌≡◌, refl, ap, ap₂, sym, subst, ◌∙◌, Bool, true, false, not, ◌&&◌, List, [],
  ◌∷◌, Option, none, some, Bool-cases, inl, inr, if◌then◌else◌, ◌==◌, ltb, arith,
}
use zmq_cn_comment.Timers.{Entry, Timers, has, erase, wait, timeout_loop, timeout}

-- The entries whose timers have not been cancelled.
abbrev pub without : List ℕ → List Entry → List Entry
without cancelled [] = []
without cancelled (e ∷ es) =
    if has e.1.timer_id cancelled then without cancelled es else e ∷ without cancelled es

abbrev pub live : Timers → List Entry
live s = without s.cancelled_timers s.timers

-- No two entries have the same id.
abbrev pub fresh : ℕ → List Entry → Bool
fresh i [] = true
fresh i (e ∷ es) = not (i == e.1.timer_id) && fresh i es

abbrev pub distinct : List Entry → Bool
distinct [] = true
distinct (e ∷ es) = fresh e.1.timer_id es && distinct es

-- The time until the first timer of a list.
abbrev pub until_first : ℕ → List Entry → Option ℕ
until_first now [] = none
until_first now (e ∷ es) = some (e.0 - now)

-- All times are below 2 ^ 63.
abbrev pub early : List Entry → Bool
early [] = true
early (e ∷ es) = ltb e.0 (2 ^ 63) && early es

pub has-erase : (i j : ℕ) (c : List ℕ) → (j == i) ≡ false → has j (erase i c) ≡ has j c
has-erase i j [] h = refl
has-erase i j (x ∷ xs) h = elim (Bool-cases (i == x)) [
  | inl same ↦ ground (arith, has-erase i j xs h)
  | inr other ↦ ground (arith, has-erase i j xs h)
]

-- Whoever is no longer cancelled was not in the list.
pub without-erase :
    (i : ℕ) (c : List ℕ) (es : List Entry)
    → fresh i es ≡ true
    → without (erase i c) es ≡ without c es
without-erase i c [] h = refl
without-erase i c (e ∷ es) h =
    let same : has e.1.timer_id (erase i c) ≡ has e.1.timer_id c =
      has-erase i e.1.timer_id c (ground arith) in
    ap₂ (λ b l. if b then l else e ∷ l) same (without-erase i c es (ground arith))

-- The same as the code computes it.
abbrev first_wait : ℕ → List Entry → Option ℕ
first_wait now [] = none
first_wait now (e ∷ es) = some (wait now e.0)

early-without : (c : List ℕ) (es : List Entry) → early es ≡ true → early (without c es) ≡ true
early-without c [] h = refl
early-without c (e ∷ es) h = ground (arith, early-without c es)

wait_lem : (now when : ℕ) → now < 2 ^ 63 → when < 2 ^ 63 → wait now when ≡ when - now
wait_lem now when hn hw = ground (arith, hn, hw)

first_wait_lem :
    (now : ℕ) (es : List Entry)
    → now < 2 ^ 63
    → early es ≡ true
    → first_wait now es ≡ until_first now es
first_wait_lem now [] h hs = refl
first_wait_lem now (e ∷ es) h hs = ap some (wait_lem now e.0 h (ground arith))

-- The result of the loop for the timers that are live.
abbrev Fine : ℕ → Option ℕ × List Entry × List ℕ → List Entry → Type 0
Fine now r l =
    ((elim r.0 [ none ↦ none | some when ↦ some (wait now when) ]) ≡ first_wait now l)
    × (without r.2 r.1 ≡ l)

loop_lem :
    (now : ℕ) (es : List Entry) (c : List ℕ)
    → distinct es ≡ true
    → Fine now (timeout_loop es c) (without c es)
unfolding timeout_loop
loop_lem now [] c d = (refl, refl)
loop_lem now (e ∷ es) c d =
    let i = e.1.timer_id in
    let rest = timeout_loop es (erase i c) in
    let Case : Bool → Type 0 = λ b.
      Fine now (if b then rest else (some e.0, e ∷ es, c))
        (if b then without c es else e ∷ without c es) in
    elim (Bool-cases (has i c)) [
      | inl gone ↦ subst Case (sym gone) (
          subst (Fine now rest) (without-erase i c es (ground arith))
            (loop_lem now es (erase i c) (ground arith)))
      | inr here ↦
          subst Case (sym here) (refl, ap (λ b. if b then without c es else e ∷ without c es) here)
    ]

-- timeout gives the time until the first timer that has not been cancelled, 0 if it is past, and -1 if
-- there is none; it changes nothing about these timers. No two timers have the same id, and the
-- times fit a long.
pub timeout-live :
    (now : ℕ) (s : Timers)
    → distinct s.timers ≡ true
    → now < 2 ^ 63
    → early s.timers ≡ true
    → ((timeout now s).0 ≡ until_first now (live s)) × (live (timeout now s).1 ≡ live s)
unfolding timeout
timeout-live now s d h hs =
    let (first, same) = loop_lem now s.timers s.cancelled_timers d in
    (first ∙ first_wait_lem now (live s) h (early-without s.cancelled_timers s.timers hs), same)
