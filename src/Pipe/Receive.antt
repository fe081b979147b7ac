-- ===== src/Pipe/Receive.antt =====
-- Reading: credentials are passed over.
use zmq_cn_comment.Base.{
  ℕ, zero, suc, ◌+◌, ◌<◌, ◌≡◌, refl, ap, Bool, true, false, List, [], ◌∷◌, ◌++◌, length-append,
  Option, none, some, length, ◌==◌, if◌then◌else◌, Bool-cases, inl, inr, arith,
}
use zmq_cn_comment.Message.{Msg, is_credential}
use zmq_cn_comment.Ypipe.{Ypipe}
use zmq_cn_comment.Ypipe
use zmq_cn_comment.Ypipe.Spec.{Spec}
use zmq_cn_comment.Ypipe.Refine.{Represents, Agrees}
use zmq_cn_comment.Ypipe.Reader.{read-Agrees}
use zmq_cn_comment.Pipe.{read_loop}

-- The first message that is no credential.
abbrev pub first_plain : List Msg → Option Msg
first_plain [] = none
first_plain (m ∷ ms) = if is_credential m then first_plain ms else some m

-- What is left after it, or nothing.
abbrev pub after_plain : List Msg → List Msg
after_plain [] = []
after_plain (m ∷ ms) = if is_credential m then after_plain ms else ms

-- The reader is told that there is nothing if no message is found.
abbrev pub found_in : List Msg → Bool → Bool
found_in [] asleep = true
found_in (m ∷ ms) asleep = if is_credential m then found_in ms asleep else asleep

read_next :
    (m : Msg) (ms : List Msg) (q : Ypipe Msg) (s : Spec Msg)
    → Represents q (record s { readable = m ∷ ms })
    → Agrees (Ypipe.read q) (some m, record s { readable = ms })
read_next m ms q s h =
    let one_left : (length (m ∷ ms) == 0) ≡ false = ground arith in
    let a = read-Agrees q (record s { readable = m ∷ ms }) h in rw one_left at a

read_loop_cases :
    (fuel : ℕ) (ms : List Msg) (q : Ypipe Msg) (s : Spec Msg)
    → Represents q (record s { readable = ms })
    → length ms < fuel
    → ((read_loop fuel q).0 ≡ first_plain ms)
      × Represents
          (read_loop fuel q).1
          (record s { readable = after_plain ms; asleep = found_in ms s.asleep })
unfolding read_loop
read_loop_cases zero ms q s h enough = absurd (omega arith)
read_loop_cases (suc fuel) [] q s h enough =
    let a = read-Agrees q (record s { readable = [] }) h in rw (a.0, read_loop) (refl, a.1)
read_loop_cases (suc fuel) (m ∷ ms) q s h enough =
    let a = read_next m ms q s h in
    rw (a.0, read_loop)
      (elim (Bool-cases (is_credential m)) [
        | inl e ↦ rw e (read_loop_cases fuel ms (Ypipe.read q).1 s a.1 (omega arith))
        | inr e ↦ rw e (refl, a.1)
      ])

-- The loop of read, with one round more than there are items, gives the first message flushed that
-- is no credential and leaves those after it; if there is none it leaves nothing to read, and the
-- writer will see that the reader sleeps.
pub read_loop-Represents :
    (q : Ypipe Msg) (s : Spec Msg)
    → Represents q s
    → ((read_loop (length q.items + 1) q).0 ≡ first_plain s.readable)
      × Represents
          (read_loop (length q.items + 1) q).1
          (record s { readable = after_plain s.readable; asleep = found_in s.readable s.asleep })
read_loop-Represents q s h =
    read_loop_cases (length q.items + 1) s.readable q s h
      (omega (arith, ap length h.items_eq, length-append s.readable (s.complete ++ s.partial)))
