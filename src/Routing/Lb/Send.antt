-- ===== src/Routing/Lb/Send.antt =====
-- Load balancing: sendpipe finds a pipe if an active one takes messages.
use zmq_cn_comment.Base.{
  ℕ, zero, suc, ◌+◌, ◌-◌, ◌≤◌, ◌<◌, ◌≡◌, ◌≢◌, inl, inr, refl, Bool, true, false, ◌==◌, none, some,
  List, ◌∷◌, if◌then◌else◌, Bool-cases, arith,
}
use zmq_cn_comment.Message.{Msg, has_more}
use zmq_cn_comment.Routing.Array.{Has, at, index}
use zmq_cn_comment.Routing.Array.Laws.{swap-IsValid, size-swap, at-swap}
use zmq_cn_comment.Routing.Pipes.{Pipes}
use zmq_cn_comment.Routing.Ring.{Ring, current_pipe, IsOrdered}
use zmq_cn_comment.Routing.Ring
use zmq_cn_comment.Routing.Ring.Current.{pipe_terminated_moves, pipe_terminated_first}
use zmq_cn_comment.Routing.Lb.{
  Lb, Outcome, sent, again, broken, skip_current, send_loop, sent_part, finish, sendpipe,
  pipe_terminated,
}

-- Pipes that each take every message or none.
abbrev pub taking : (ℕ → Bool) → Pipes (Unit {0})
taking takes = record {
  write = λ p m w. (takes p, w);
  flush = λ p w. w;
  rollback = λ p w. w;
  check_write = λ p w. (takes p, w);
  read = λ p w. (none, w);
  check_read = λ p w. (false, w);
  check_hwm = λ p w. false;
}

skip_current-IsOrdered : (r : Ring) → 0 < r.active → IsOrdered r → IsOrdered (skip_current r)
unfolding skip_current
skip_current-IsOrdered r pos o = ground (
  arith,
  swap-IsValid r.pipes r.current (r.active - 1),
  size-swap r.pipes r.current (r.active - 1),
)

at-skip_current :
    (r : Ring) (k : ℕ)
    → IsOrdered r
    → k + 1 < r.active
    → at (skip_current r).pipes k
      ≡ (if k == r.current then at r.pipes (r.active - 1) else at r.pipes k)
unfolding skip_current
at-skip_current r k o h = ground (arith, at-swap r.pipes r.current (r.active - 1) k)

active-skip_current : (r : Ring) → (skip_current r).active ≡ r.active - 1
unfolding skip_current
active-skip_current r = ground arith

sent_part_pipe :
    (takes : ℕ → Bool) (m : Msg) (l : Lb)
    → (sent_part (taking takes) m l tt).0 ≡ sent (some (current_pipe l.ring))
unfolding sent_part
sent_part_pipe takes m l = ground arith

-- What was done to the pipes, the last first.
pub data Call : Type 0 where
  wrote : ℕ → Msg → Call
  flushed rolled_back : ℕ → Call

-- Pipes that log what they take, and each flush and rollback.
abbrev pub logging : (ℕ → Bool) → Pipes (List Call)
logging takes = record {
  write = λ p m w. (takes p, if takes p then wrote p m ∷ w else w);
  flush = λ p w. flushed p ∷ w;
  rollback = λ p w. rolled_back p ∷ w;
  check_write = λ p w. (takes p, w);
  read = λ p w. (none, w);
  check_read = λ p w. (false, w);
  check_hwm = λ p w. takes p;
}

-- What a call finds and does, with the log before and after it: the part is written to an active pipe
-- that takes it, which is flushed after a last part; or every active pipe refuses it, and nothing is done.
abbrev pub Found : (ℕ → Bool) → Msg → List Call → Ring → Outcome → List Call → Type 0
Found takes m w r (sent (some p)) w' =
    (takes p ≡ true)
    × (w' ≡ (if has_more m then wrote p m ∷ w else flushed p ∷ wrote p m ∷ w))
    × ((k : ℕ) × (k < r.active) × (at r.pipes k ≡ p))
Found takes m w r (sent none) w' = ⊥
Found takes m w r again w' = ((k : ℕ) → k < r.active → takes (at r.pipes k) ≡ false) × (w' ≡ w)
Found takes m w r broken w' = ⊥

module _ (takes : ℕ → Bool) (m : Msg) (w : List Call) where
  Found-back :
      (w' : List Call) (r : Ring) (o : Outcome)
      → IsOrdered r
      → 0 < r.active
      → takes (current_pipe r) ≡ false
      → Found takes m w (skip_current r) o w'
      → Found takes m w r o w'
  Found-back w' r (sent (some p)) o pos e (accepts, done, (k, lt, here)) = (
    accepts,
    done,
    (
      (if k == r.current then r.active - 1 else k),
      ground (arith, active-skip_current r),
      ground (arith, active-skip_current r, at-skip_current r k o),
    ),
  )
  Found-back w' r (sent none) o pos e h = h
  Found-back w' r again o pos e (h, same) = (
    λ k lt. ground (
      arith,
      h k,
      h r.current,
      active-skip_current r,
      at-skip_current r k o,
      at-skip_current r r.current o,
    ),
    same,
  )
  Found-back w' r broken o pos e h = h

  sent_part-Found :
      (l : Lb)
      → IsOrdered l.ring
      → 0 < l.ring.active
      → takes (current_pipe l.ring) ≡ true
      → let r = sent_part (logging takes) m l (wrote (current_pipe l.ring) m ∷ w) in
        Found takes m w l.ring r.0 r.2
  unfolding sent_part
  sent_part-Found l o pos e = elim (Bool-cases (has_more m)) [
    | inl more ↦ rw (more, more) (e, refl, (l.ring.current, ground (arith, o.current_in), refl))
    | inr last ↦ rw (last, last) (e, refl, (l.ring.current, ground (arith, o.current_in), refl))
  ]

  send_loop-Found :
      (fuel : ℕ) (l : Lb)
      → IsOrdered l.ring
      → l.ring.active ≤ fuel
      → l.more ≡ false
      → let r = finish (logging takes) m (send_loop (logging takes) fuel m l w) in
        Found takes m w l.ring r.0 r.2
  unfolding send_loop
  send_loop-Found zero l o enough whole = (λ k lt. absurd (omega arith), refl)
  send_loop-Found (suc fuel) l o enough whole = elim (Bool-cases (l.ring.active == 0)) [
    | inl done ↦ rw done (λ k lt. absurd (ground arith), refl)
    | inr left ↦ rw left (elim (Bool-cases (takes (current_pipe l.ring))) [
      | inl e ↦ rw e (sent_part-Found l o (ground arith) e)
      | inr e ↦
          rw (e, whole)
            (Found-back _ l.ring _ o (ground arith) e (
              send_loop-Found fuel
                (record { ring = skip_current l.ring; more = false; dropping = l.dropping })
                (skip_current-IsOrdered l.ring (ground arith) o)
                (omega (arith, active-skip_current l.ring)) refl))
    ])
  ]

  -- Between messages, nothing being dropped and with a ring in order, sendpipe writes the part, once,
  -- to an active pipe that takes it, flushes this pipe if it is a last part, and does nothing else to the
  -- pipes; or it fails with EAGAIN and does nothing to them, and this only if every active pipe refuses
  -- the part.
  pub sendpipe-Found :
      (l : Lb)
      → IsOrdered l.ring
      → l.more ≡ false
      → l.dropping ≡ false
      → let r = sendpipe (logging takes) m l w in Found takes m w l.ring r.0 r.2
  unfolding sendpipe
  sendpipe-Found l o whole keep = rw keep (
      send_loop-Found l.ring.active (record { ring = l.ring; more = l.more; dropping = false }) o
        (omega arith) whole)

sent_loop_current :
    (m : Msg) (l : Lb) (n : ℕ)
    → 0 < n
    → 0 < l.ring.active
    → (finish (taking (λ q. true)) m (send_loop (taking (λ q. true)) n m l tt)).0
      ≡ sent (some (current_pipe l.ring))
unfolding send_loop
sent_loop_current m l zero fuel pos = absurd (omega arith)
sent_loop_current m l (suc n) fuel pos =
    let left : (l.ring.active == 0) ≡ false = ground arith in
    rw left (sent_part_pipe (λ q. true) m l)

-- While every pipe takes messages and nothing is being dropped, sendpipe writes to the current pipe.
sendpipe_current :
    (m : Msg) (l : Lb)
    → l.dropping ≡ false
    → 0 < l.ring.active
    → (sendpipe (taking (λ q. true)) m l tt).0 ≡ sent (some (current_pipe l.ring))
unfolding sendpipe
sendpipe_current m l keep pos = rw keep (
    sent_loop_current m (record { ring = l.ring; more = l.more; dropping = false }) l.ring.active
      pos pos)

-- A multipart message is being sent to the last active pipe, and another active pipe that is not the
-- first terminates: if every pipe takes messages, the next part goes to a different pipe, though the pipe of the earlier parts is
-- still in the array.
pub pipe_terminated_misroutes :
    (m : Msg) (p : ℕ) (l : Lb)
    → IsOrdered l.ring
    → Has l.ring.pipes p
    → l.more ≡ true
    → l.dropping ≡ false
    → l.ring.current + 1 ≡ l.ring.active
    → 0 < index l.ring.pipes p
    → index l.ring.pipes p < l.ring.current
    → (q : ℕ) × (q ≢ current_pipe l.ring)
      × Has (pipe_terminated p l).ring.pipes (current_pipe l.ring)
      × ((sendpipe (taking (λ k. true)) m (pipe_terminated p l) tt).0 ≡ sent (some q))
unfolding pipe_terminated
pipe_terminated_misroutes m p l o h transit keep last pos lt = (
  current_pipe gone,
  moved.0,
  moved.1,
  sendpipe_current m (pipe_terminated p l) (ground (arith, keep)) first.1,
)
  where
    gone : Ring
    gone = Ring.pipe_terminated p l.ring

    moved : (current_pipe gone ≢ current_pipe l.ring) × Has gone.pipes (current_pipe l.ring)
    moved = pipe_terminated_moves p l.ring o h last pos lt

    first : (current_pipe gone ≡ at l.ring.pipes 0) × (0 < gone.active)
    first = pipe_terminated_first p l.ring o h last pos lt
