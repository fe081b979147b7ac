-- ===== src/Routing/Fq/Receive.antt =====
-- Fair queueing: recvpipe finds a message if an active pipe has one.
use zmq_cn_comment.Base.{
  ℕ, zero, suc, ◌+◌, ◌-◌, ◌≤◌, ◌<◌, ◌≡◌, ◌≢◌, ◌⊎◌, inl, inr, refl, ap, ◌∙◌, true, false, ◌==◌,
  Option, none, some, List, [], ◌∷◌, if◌then◌else◌, Bool-cases, Option-cases, arith,
}
use zmq_cn_comment.Message.{Msg}
use zmq_cn_comment.Routing.Array.{Has, at, index}
use zmq_cn_comment.Routing.Pipes.{Pipes}
use zmq_cn_comment.Routing.Ring.{Ring, current_pipe, deactivate_current, IsOrdered}
use zmq_cn_comment.Routing.Ring.Laws.{
  deactivate_current-IsOrdered, at-deactivate_current, active-deactivate_current,
}
use zmq_cn_comment.Routing.Fq.{
  Fq, Outcome, received, again, aborted, received_part, recv_loop, recvpipe, pipe_terminated,
  forget, unless_more, read_cases,
}
use zmq_cn_comment.Routing.Ring
use zmq_cn_comment.Routing.Ring.Current.{pipe_terminated_first}

-- Pipes that each have a first message or none, whatever is read.
abbrev pub offering : (ℕ → Option Msg) → Pipes (Unit {0})
offering first = record {
  write = λ p m w. (false, w);
  flush = λ p w. w;
  rollback = λ p w. w;
  check_write = λ p w. (false, w);
  read = λ p w. (first p, w);
  check_read = λ p w. (false, w);
  check_hwm = λ p w. false;
}

-- What is queued in each pipe.
abbrev pub Queues : Type 0
Queues = ℕ → List Msg

-- The first message of the queue is taken.
abbrev pub take_first : ℕ → Queues → List Msg → Option Msg × Queues
take_first p w [] = (none, w)
take_first p w (m ∷ q) = (some m, λ k. if k == p then q else w k)

-- Pipes that are read from their queues.
abbrev pub queued : Pipes Queues
queued = record {
  write = λ p m w. (false, w);
  flush = λ p w. w;
  rollback = λ p w. w;
  check_write = λ p w. (false, w);
  read = λ p w. take_first p w (w p);
  check_read = λ p w. (false, w);
  check_hwm = λ p w. false;
}

-- What a read finds in the queues, and what it leaves of them: the first message of an active pipe,
-- which is taken out; or nothing, and then no active pipe has a message.
abbrev pub Found : Queues → Ring → Outcome → Queues → Type 0
Found w r (received m p) w' =
    (w p ≡ m ∷ w' p)
    × ((q : ℕ) → q ≢ p → w' q ≡ w q)
    × ((k : ℕ) × (k < r.active) × (at r.pipes k ≡ p))
Found w r again w' = ((k : ℕ) → k < r.active → w (at r.pipes k) ≡ []) × (w' ≡ w)
Found w r aborted w' = ⊥

Found-back :
    (w w' : Queues) (r : Ring) (o : Outcome)
    → IsOrdered r
    → 0 < r.active
    → w (current_pipe r) ≡ []
    → Found w (deactivate_current r) o w'
    → Found w r o w'
Found-back w w' r (received m p) o pos e (first, others, (k, lt, here)) = (
  first,
  others,
  (
    (if k == r.current then r.active - 1 else k),
    ground (arith, active-deactivate_current r),
    ground (arith, active-deactivate_current r, at-deactivate_current r k o),
  ),
)
Found-back w w' r again o pos e (h, same) = (
  λ k lt. ground (
    arith,
    h k,
    h r.current,
    active-deactivate_current r,
    at-deactivate_current r k o,
    at-deactivate_current r r.current o,
  ),
  same,
)
Found-back w w' r aborted o pos e h = h

take_first_some :
    (w : Queues) (r : Ring) (m : Msg) (q : List Msg)
    → IsOrdered r
    → 0 < r.active
    → w (current_pipe r) ≡ m ∷ q
    → Found w r (received m (current_pipe r)) (λ k. if k == current_pipe r then q else w k)
take_first_some w r m q o pos e =
    (ground arith, λ k ne. ground arith, (r.current, ground (arith, o.current_in), refl))

List-cases : {A : Type 0} (xs : List A) → (xs ≡ []) ⊎ ((x : A) × (ys : List A) × (xs ≡ x ∷ ys))
List-cases [] = inl refl
List-cases (x ∷ ys) = inr (x, ys, refl)

recv_loop-Found :
    (fuel : ℕ) (f : Fq) (w : Queues)
    → IsOrdered f.ring
    → f.ring.active ≤ fuel
    → f.more ≡ false
    → let r = recv_loop queued fuel f w in Found w f.ring r.0 r.2
unfolding recv_loop
recv_loop-Found zero f w o enough whole = (λ k lt. absurd (omega arith), refl)
recv_loop-Found (suc fuel) f w o enough whole = elim (Bool-cases (f.ring.active == 0)) [
  | inl done ↦ rw done (λ k lt. absurd (ground arith), refl)
  | inr left ↦ rw left (elim (List-cases (w (current_pipe f.ring))) [
    | inr (m, q, e) ↦ rw (e, recv_loop) (take_first_some w f.ring m q o (ground arith) e)
    | inl e ↦
        rw (e, whole, recv_loop)
          (Found-back w _ f.ring _ o (ground arith) e (
            recv_loop-Found fuel
              (record { ring = deactivate_current f.ring; last_in = f.last_in; more = false }) w
              (deactivate_current-IsOrdered f.ring (ground arith) o)
              (omega (arith, active-deactivate_current f.ring)) refl))
  ])
]

-- Between messages and with a ring in order, recvpipe takes the first message out of the queue of an
-- active pipe and returns it with the pipe, and leaves all other queues as they are; or it returns EAGAIN
-- and takes nothing, and this only if no active pipe has a message. Its assertion does not fail.
pub recvpipe-Found :
    (f : Fq) (w : Queues)
    → IsOrdered f.ring
    → f.more ≡ false
    → let r = recvpipe queued f w in Found w f.ring r.0 r.2
unfolding recvpipe
recvpipe-Found f w o whole = recv_loop-Found f.ring.active f w o (omega arith) whole

received_part-IsOrdered :
    (m : Msg) (f : Fq) → IsOrdered f.ring → 0 < f.ring.active → IsOrdered (received_part m f).ring
unfolding received_part
received_part-IsOrdered m f o pos = ground arith

module _ {W : Type 0} (io : Pipes W) where
  recv_loop-IsOrdered :
      (fuel : ℕ) (f : Fq) (w : W) → IsOrdered f.ring → IsOrdered (recv_loop io fuel f w).1.ring
  unfolding recv_loop
  recv_loop-IsOrdered zero f w o = o
  recv_loop-IsOrdered (suc fuel) f w o = elim (Bool-cases (f.ring.active == 0)) [
    | inl done ↦ rw done o
    | inr left ↦ rw left (elim (Option-cases (io.read (current_pipe f.ring) w).0) [
      | inr (m, e) ↦ rw (e, recv_loop) (received_part-IsOrdered m f o (ground arith))
      | inl e ↦
          rw (e, recv_loop)
            (elim (Bool-cases f.more) [
              | inl transit ↦ rw (transit, recv_loop) o
              | inr whole ↦
                  rw (whole, recv_loop)
                    (recv_loop-IsOrdered fuel
                      (record {
                        ring = deactivate_current f.ring;
                        last_in = f.last_in;
                        more = false;
                      })
                      _ (deactivate_current-IsOrdered f.ring (ground arith) o))
            ])
    ])
  ]

  -- Reading keeps the ring in order, whatever the pipes do.
  pub recvpipe-IsOrdered : (f : Fq) (w : W) → IsOrdered f.ring → IsOrdered (recvpipe io f w).1.ring
  unfolding recvpipe
  recvpipe-IsOrdered f w o = recv_loop-IsOrdered f.ring.active f w o

  read_cases_more :
      (f : Fq) (rest : Outcome × Fq × W) (r : Option Msg × W)
      → f.more ≡ true
      → r.0 ≡ none
      → (read_cases io f rest r).0 ≡ aborted
  read_cases_more f rest (some m, w) transit e = cc
  read_cases_more f rest (none, w) transit e = ap (λ b. (unless_more io f w rest b).0) transit

  recv_loop_more :
      (n : ℕ) (f : Fq) (w : W)
      → f.more ≡ true
      → 0 < f.ring.active
      → 0 < n
      → (io.read (current_pipe f.ring) w).0 ≡ none
      → (recv_loop io n f w).0 ≡ aborted
  unfolding recv_loop
  recv_loop_more zero f w transit pos fuel e = absurd (omega arith)
  recv_loop_more (suc n) f w transit pos fuel e =
      let some_left : (f.ring.active == 0) ≡ false = ground arith in
      rw some_left (read_cases_more f _ (io.read (current_pipe f.ring) w) transit e)

  -- In the middle of a message only the current pipe is read, and the assertion fails if it has
  -- nothing.
  recvpipe_more :
      (f : Fq) (w : W)
      → f.more ≡ true
      → 0 < f.ring.active
      → (io.read (current_pipe f.ring) w).0 ≡ none
      → (recvpipe io f w).0 ≡ aborted
  unfolding recvpipe
  recvpipe_more f w transit pos e = recv_loop_more f.ring.active f w transit pos pos e

-- A multipart message is being read from the last active pipe, and another active pipe that is not
-- the first terminates: if the first pipe has nothing to read, the next call fails its assertion,
-- whatever the pipe of the message holds.
pub pipe_terminated_aborts :
    (first : ℕ → Option Msg) (p : ℕ) (f : Fq)
    → IsOrdered f.ring
    → Has f.ring.pipes p
    → f.more ≡ true
    → f.ring.current + 1 ≡ f.ring.active
    → 0 < index f.ring.pipes p
    → index f.ring.pipes p < f.ring.current
    → first (at f.ring.pipes 0) ≡ none
    → (recvpipe (offering first) (pipe_terminated p f) tt).0 ≡ aborted
unfolding pipe_terminated
pipe_terminated_aborts first p f o h transit last pos lt e =
    recvpipe_more (offering first) (record f { ring = gone; last_in = forget p f.last_in }) tt
      transit moved.1 (ap first moved.0 ∙ e)
  where
    gone : Ring
    gone = Ring.pipe_terminated p f.ring

    moved : (current_pipe gone ≡ at f.ring.pipes 0) × (0 < gone.active)
    moved = pipe_terminated_first p f.ring o h last pos lt
