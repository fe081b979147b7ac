-- ===== src/Routing/Lb.antt =====
-- src/lb.cpp and lb.hpp, `lb_t`: messages go to the active pipes in turn, all parts of a message to
-- one pipe.
pub mod Send
use zmq_cn_comment.Base.{
  ℕ, zero, suc, ◌+◌, ◌-◌, ◌<◌, ◌≡◌, Bool, true, false, ◌||◌, ◌&&◌, Option, none, some,
  if◌then◌else◌, ltb, leb, ◌==◌,
}
use zmq_cn_comment.Message.{Msg, has_more}
use zmq_cn_comment.Routing.Array.{Array, size, at, index, push_back, swap}
use zmq_cn_comment.Routing.Pipes.{Pipes}
use zmq_cn_comment.Routing.Ring.{Ring, current_pipe, deactivate_current}
use zmq_cn_comment.Routing.Ring

pub record Lb : Type 0 where
  pub ring : Ring
  pub more : Bool
  pub dropping : Bool

-- The constructor's state.
abbrev pub start : Lb
start = record { ring = Ring.start; more = false; dropping = false }

pub activated : ℕ → Lb → Lb
activated p l = record l { ring = Ring.activated p l.ring }

pub attach : ℕ → Lb → Lb
unfolding activated
attach p l = activated p (record l { ring = record (l.ring) { pipes = push_back p l.ring.pipes } })

pub pipe_terminated : ℕ → Lb → Lb
pipe_terminated p l = record l {
  ring = Ring.pipe_terminated p l.ring;
  dropping = ((index l.ring.pipes p == l.ring.current) && l.more) || l.dropping;
}

-- active--; if (current < active) swap (current, active); else current = 0;
pub skip_current : Ring → Ring
skip_current r =
    let active = r.active - 1 in
    if ltb r.current active
    then record r { pipes = swap r.current active r.pipes; active = active }
    else record r { active = active; current = 0 }

-- What sendpipe returns: 0 with the pipe that was written to, -1 with EAGAIN, or -2 with EAGAIN for a
-- message that was broken off.
pub data Outcome : Type 0 where
  sent : Option ℕ → Outcome
  again broken : Outcome

module _ {W : Type 0} (io : Pipes W) where
  -- How the loop over the pipes ends: a pipe took the message, none was left, or the pipe of the
  -- earlier parts refused.
  pub data Tried : Type 0 where
    taken exhausted refused : Tried

  -- while (active > 0) { ... }; each round that goes on has one active pipe less.
  unfoldable pub send_loop : ℕ → Msg → Lb → W → Tried × Lb × W
  send_loop zero m l w = (exhausted, l, w)
  send_loop (suc fuel) m l w =
      let r = io.write (current_pipe l.ring) m w in
      let rest = send_loop fuel m (record l { ring = skip_current l.ring }) r.1 in
      if l.ring.active == 0
      then (exhausted, l, w)
      else if r.0
      then (taken, l, r.1)
      else if l.more
      then (
        refused,
        record l { dropping = has_more m; more = false },
        io.rollback (current_pipe l.ring) r.1,
      )
      else rest

  -- After a part has been written: on to the next pipe if it was the last one.
  unfoldable pub sent_part : Msg → Lb → W → Outcome × Lb × W
  sent_part m l w =
      let p = current_pipe l.ring in
      let next = l.ring.current + 1 in
      if has_more m then (sent (some p), record l { more = true }, w) else (
        sent (some p),
        record l {
          more = false;
          ring = record (l.ring) { current = if leb l.ring.active next then 0 else next };
        },
        io.flush p w,
      )

  abbrev pub finish : Msg → Tried × Lb × W → Outcome × Lb × W
  finish m (taken, l, w) = sent_part m l w
  finish m (exhausted, l, w) = (again, l, w)
  finish m (refused, l, w) = (broken, l, w)

  unfoldable pub sendpipe : Msg → Lb → W → Outcome × Lb × W
  unfolding send_loop sent_part skip_current
  sendpipe m l w =
      if l.dropping
      then (sent none, record l { more = has_more m; dropping = has_more m }, w)
      else finish m (send_loop l.ring.active m l w)

  -- while (active > 0) { if (pipes[current]->check_write ()) return true; ... }
  pub has_out_loop : ℕ → Lb → W → Bool × Lb × W
  has_out_loop zero l w = (false, l, w)
  has_out_loop (suc fuel) l w =
      let r = io.check_write (current_pipe l.ring) w in
      let rest = has_out_loop fuel (record l { ring = deactivate_current l.ring }) r.1 in
      if l.ring.active == 0 then (false, l, w) else if r.0 then (true, l, r.1) else rest

  pub has_out : Lb → W → Bool × Lb × W
  unfolding has_out_loop
  has_out l w = if l.more then (true, l, w) else has_out_loop l.ring.active l w
