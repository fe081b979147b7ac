-- ===== src/Socket/Req.antt =====
-- src/req.cpp and req.hpp, `req_t`: requests and replies in turn, each reply from the pipe that the
-- request went to.
pub mod Inbox
pub mod Reply
pub mod Request
pub mod Round
pub mod Outbox
pub mod Send
pub mod Receive
use zmq_cn_comment.Base.{
  ℕ, zero, suc, ◌+◌, ◌/◌, ◌%◌, ◌^◌, Bool, true, false, not, ◌&&◌, ◌||◌, Option, none, some, List,
  [], ◌∷◌, length, if◌then◌else◌, ◌==◌, equal_bytes,
}
use zmq_cn_comment.Message.{Msg, MsgType, more_flag, has_more}
use zmq_cn_comment.Routing.Fq
use zmq_cn_comment.Routing.Lb
use zmq_cn_comment.Socket.Dealer.{SocketOption, probe_router, req_correlate, req_relaxed}

pub record Req : Type 0 where
  pub receiving_reply : Bool
  pub message_begins : Bool
  pub reply_pipe : Option ℕ
  pub request_id_frames_enabled : Bool
  pub request_id : ℕ
  pub strict : Bool

-- The constructor's state, with the 32 bits that `generate_random` returns.
abbrev pub start : ℕ → Req
start random = record {
  receiving_reply = false;
  message_begins = true;
  reply_pipe = none;
  request_id_frames_enabled = false;
  request_id = random;
  strict = true;
}

-- What `req_t` asks of `dealer_t`; `D` is the state of the dealer and of its pipes.
pub record DealerOps (D : Type 0) : Type 0 where
  pub sendpipe : Msg → D → Lb.Outcome × D
  pub recvpipe : D → Fq.Outcome × D
  pub xhas_in : D → Bool × D
  pub xhas_out : D → Bool × D
  pub xsetsockopt : SocketOption → Option ℕ → D → Option D
  pub xpipe_terminated : ℕ → D → D

-- The bytes of the number in the order of the host, the lowest first.
abbrev pub id_bytes : ℕ → List ℕ
id_bytes n = n % 256 ∷ n / 2 ^ 8 % 256 ∷ n / 2 ^ 16 % 256 ∷ n / 2 ^ 24 % 256 ∷ []

-- The first part of a request, with the number of the request.
abbrev pub id_part : ℕ → Msg
id_part n = record { type = MsgType.vsm; flags = more_flag; body = id_bytes n }

-- The empty part that ends the envelope.
abbrev pub bottom_part : Msg
bottom_part = record { type = MsgType.vsm; flags = more_flag; body = [] }

-- What xsend returns: 0; -1 with EFSM; -1 with EAGAIN; -2 with EAGAIN. `aborted` is a failed assertion,
-- and `hung` says that the fuel was too little.
pub data Sent : Type 0 where
  done efsm again broken aborted hung : Sent

-- What xrecv returns: 0 with a part, or a failure.
pub data Got : Type 0 where
  got : Msg → Got
  efsm again aborted hung : Got

-- *pipe_ = pipe, if the part was written to one.
abbrev pub set_pipe : Option ℕ → Req → Req
set_pipe none r = r
set_pipe (some p) r = record r { reply_pipe = some p }

abbrev pub is_some : Option ℕ → Bool
is_some none = false
is_some (some p) = true

-- Whether a part from this pipe belongs to the reply.
abbrev pub from_reply_pipe : Option ℕ → ℕ → Bool
from_reply_pipe none p = true
from_reply_pipe (some q) p = p == q

-- After a part of a request has been sent.
unfoldable pub part_sent : Bool → Req → Req
part_sent more r = if more then r else record r { receiving_reply = true; message_begins = true }

-- After a part of a reply has been received.
unfoldable pub part_received : Msg → Req → Req
part_received m r =
    if has_more m then r else record r { receiving_reply = false; message_begins = true }

-- The first part must have the number of the request.
unfoldable pub is_id : Req → Msg → Bool
is_id r m = has_more m && (length m.body == 4) && equal_bytes m.body (id_bytes r.request_id)

-- The next part must be empty.
unfoldable pub is_bottom : Msg → Bool
is_bottom m = has_more m && (length m.body == 0)

module _ {D : Type 0} (ops : DealerOps D) where
  unfoldable pub xhas_in : Req → D → Bool × D
  xhas_in r d = if not r.receiving_reply then (false, d) else ops.xhas_in d

  unfoldable pub xhas_out : Req → D → Bool × D
  xhas_out r d = if r.receiving_reply && r.strict then (false, d) else ops.xhas_out d

  abbrev pub to_dealer : Req → Option D → Option (Req × D)
  to_dealer r none = none
  to_dealer r (some d) = some (r, d)

  -- `none` for EINVAL; a value that is none of an int that is not negative goes on to the dealer.
  unfoldable pub xsetsockopt : SocketOption → Option ℕ → Req → D → Option (Req × D)
  xsetsockopt req_correlate (some value) r d =
      some (record r { request_id_frames_enabled = not (value == 0) }, d)
  xsetsockopt req_relaxed (some value) r d = some (record r { strict = value == 0 }, d)
  xsetsockopt req_correlate none r d = to_dealer r (ops.xsetsockopt req_correlate none d)
  xsetsockopt req_relaxed none r d = to_dealer r (ops.xsetsockopt req_relaxed none d)
  xsetsockopt probe_router value r d = to_dealer r (ops.xsetsockopt probe_router value d)

  -- if (_reply_pipe == pipe_) _reply_pipe = NULL;
  abbrev pub forget : ℕ → Option ℕ → Option ℕ
  forget p none = none
  forget p (some q) = if q == p then none else some q

  unfoldable pub xpipe_terminated : ℕ → Req → D → Req × D
  xpipe_terminated p r d =
      (record r { reply_pipe = forget p r.reply_pipe }, ops.xpipe_terminated p d)
