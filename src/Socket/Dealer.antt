-- ===== src/Socket/Dealer.antt =====
-- src/dealer.cpp, `dealer_t`: messages are read fairly from all pipes and written to them in turn.
use zmq_cn_comment.Base.{ℕ, Bool, true, false, Option, none, some, if◌then◌else◌, ◌==◌}
use zmq_cn_comment.Message.{Msg, init}
use zmq_cn_comment.Routing.Pipes.{Pipes}
use zmq_cn_comment.Routing.Fq.{Fq}
use zmq_cn_comment.Routing.Lb.{Lb}
use zmq_cn_comment.Routing.Fq
use zmq_cn_comment.Routing.Lb

pub record Dealer : Type 0 where
  pub fq : Fq
  pub lb : Lb
  pub probe_router : Bool

-- The constructor's state.
abbrev pub start : Dealer
start = record { fq = Fq.start; lb = Lb.start; probe_router = false }

-- The options that the sockets on requests set.
pub data SocketOption : Type 0 where
  probe_router req_correlate req_relaxed : SocketOption

-- `none` for EINVAL. The value is that of an int, `none` for one that is negative or has another size.
pub xsetsockopt : SocketOption → Option ℕ → Dealer → Option Dealer
xsetsockopt probe_router (some value) s =
    some (record s { probe_router = if value == 0 then false else true })
xsetsockopt probe_router none s = none
xsetsockopt req_correlate value s = none
xsetsockopt req_relaxed value s = none

pub xread_activated : ℕ → Dealer → Dealer
xread_activated p s = record s { fq = Fq.activated p s.fq }

pub xwrite_activated : ℕ → Dealer → Dealer
xwrite_activated p s = record s { lb = Lb.activated p s.lb }

pub xpipe_terminated : ℕ → Dealer → Dealer
xpipe_terminated p s = record s { fq = Fq.pipe_terminated p s.fq; lb = Lb.pipe_terminated p s.lb }

module _ {W : Type 0} (io : Pipes W) where
  -- The probe is an empty message; nobody asks whether the pipe took it.
  pub probe : Bool → ℕ → W → W
  probe wanted p w = if wanted then io.flush p (io.write p init w).1 else w

  pub xattach_pipe : ℕ → Dealer × W → Dealer × W
  unfolding probe
  xattach_pipe p (s, w) =
      (record s { fq = Fq.attach p s.fq; lb = Lb.attach p s.lb }, probe s.probe_router p w)

  unfoldable pub sendpipe : Msg → Dealer × W → Lb.Outcome × Dealer × W
  sendpipe m (s, w) = let r = Lb.sendpipe io m s.lb w in (r.0, record s { lb = r.1 }, r.2)

  unfoldable pub recvpipe : Dealer × W → Fq.Outcome × Dealer × W
  recvpipe (s, w) = let r = Fq.recvpipe io s.fq w in (r.0, record s { fq = r.1 }, r.2)

  pub xhas_in : Dealer × W → Bool × Dealer × W
  xhas_in (s, w) = let r = Fq.has_in io s.fq w in (r.0, record s { fq = r.1 }, r.2)

  pub xhas_out : Dealer × W → Bool × Dealer × W
  xhas_out (s, w) = let r = Lb.has_out io s.lb w in (r.0, record s { lb = r.1 }, r.2)
