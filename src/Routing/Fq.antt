-- ===== src/Routing/Fq.antt =====
-- src/fq.cpp and fq.hpp, `fq_t`: messages are read from the active pipes in turn, all parts of a
-- message from one pipe.
pub mod Receive
use zmq_cn_comment.Base.{
  ℕ, zero, suc, ◌+◌, ◌%◌, Bool, true, false, not, Option, none, some, if◌then◌else◌, ◌==◌,
}
use zmq_cn_comment.Message.{Msg, has_more}
use zmq_cn_comment.Routing.Pipes.{Pipes}
use zmq_cn_comment.Routing.Ring.{Ring, current_pipe, deactivate_current}
use zmq_cn_comment.Routing.Ring

pub record Fq : Type 0 where
  pub ring : Ring
  pub last_in : Option ℕ
  pub more : Bool

-- The constructor's state.
abbrev pub start : Fq
start = record { ring = Ring.start; last_in = none; more = false }

pub attach : ℕ → Fq → Fq
attach p f = record f { ring = Ring.attach p f.ring }

-- if (last_in == pipe) last_in = NULL;
abbrev pub forget : ℕ → Option ℕ → Option ℕ
forget p none = none
forget p (some q) = if q == p then none else some q

pub pipe_terminated : ℕ → Fq → Fq
pipe_terminated p f = record f {
  ring = Ring.pipe_terminated p f.ring;
  last_in = forget p f.last_in;
}

pub activated : ℕ → Fq → Fq
activated p f = record f { ring = Ring.activated p f.ring }

-- What recvpipe returns: 0 with the message and its pipe, or -1 with EAGAIN. `aborted` is the failure
-- of zmq_assert (!more): the pipe of a message in transit had no further part.
pub data Outcome : Type 0 where
  received : Msg → ℕ → Outcome
  again aborted : Outcome

-- After a part has been read: on to the next pipe if it was the last one.
unfoldable pub received_part : Msg → Fq → Fq
received_part m f =
    let r = f.ring in
    if has_more m then record f { more = true } else record f {
      more = false;
      last_in = some (current_pipe r);
      ring = record r { current = (r.current + 1) % r.active };
    }

module _ {W : Type 0} (io : Pipes W) where
  -- zmq_assert (!more)
  abbrev pub unless_more : Fq → W → Outcome × Fq × W → Bool → Outcome × Fq × W
  unless_more f w rest true = (aborted, f, w)
  unless_more f w rest false = rest

  abbrev pub read_cases : Fq → Outcome × Fq × W → Option Msg × W → Outcome × Fq × W
  read_cases f rest (some m, w) = (received m (current_pipe f.ring), received_part m f, w)
  read_cases f rest (none, w) = unless_more f w rest f.more

  -- while (active > 0) { ... }; each round that goes on has one active pipe less.
  unfoldable pub recv_loop : ℕ → Fq → W → Outcome × Fq × W
  recv_loop zero f w = (again, f, w)
  recv_loop (suc fuel) f w =
      let r = io.read (current_pipe f.ring) w in
      let rest = recv_loop fuel (record f { ring = deactivate_current f.ring }) r.1 in
      if f.ring.active == 0 then (again, f, w) else read_cases f rest r

  unfoldable pub recvpipe : Fq → W → Outcome × Fq × W
  unfolding recv_loop received_part
  recvpipe f w = recv_loop f.ring.active f w

  pub has_in_loop : ℕ → Fq → W → Bool × Fq × W
  has_in_loop zero f w = (false, f, w)
  has_in_loop (suc fuel) f w =
      let r = io.check_read (current_pipe f.ring) w in
      let rest = has_in_loop fuel (record f { ring = deactivate_current f.ring }) r.1 in
      if f.ring.active == 0 then (false, f, w) else if r.0 then (true, f, r.1) else rest

  pub has_in : Fq → W → Bool × Fq × W
  unfolding has_in_loop
  has_in f w = if f.more then (true, f, w) else has_in_loop f.ring.active f w
