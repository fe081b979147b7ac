-- ===== src/Socket/Rep.antt =====
-- src/rep.cpp and rep.hpp, `rep_t`: a request is received, then the reply is sent to where it came from.
pub mod Envelope
mod Tests
pub mod Routes
use zmq_cn_comment.Base.{ℕ, zero, suc, Bool, true, false, not, length, if◌then◌else◌, ◌==◌}
use zmq_cn_comment.Errno.{Errno}
use zmq_cn_comment.Message.{Msg, has_more}

pub record Rep : Type 0 where
  pub sending_reply : Bool
  pub request_begins : Bool

-- The constructor's state.
abbrev pub start : Rep
start = record { sending_reply = false; request_begins = true }

-- What a send returns: 0, or -1 with errno.
pub data Sent : Type 0 where
  done : Sent
  fail : Errno → Sent

-- What a receive returns: 0 with a part, or -1 with errno. `aborted` is a failed assertion, and `hung`
-- says that the fuel was too little.
pub data Got : Type 0 where
  got : Msg → Got
  fail : Errno → Got
  aborted hung : Got

-- What xhas_in answers; or an assertion failed, or the fuel was too little.
pub data Readable : Type 0 where
  readable : Bool → Readable
  failed_assertion no_fuel : Readable

-- What `rep_t` asks of `router_t`; `R` is the state of the router and of its pipes.
pub record RouterOps (R : Type 0) : Type 0 where
  pub xsend : Msg → R → Sent × R
  pub xrecv : R → Got × R
  pub rollback : R → R
  pub xhas_in : R → Readable × R
  pub xhas_out : R → Bool × R

-- After a part of the reply has been sent.
abbrev pub part_sent : Msg → Rep → Rep
part_sent m s = if has_more m then s else record s { sending_reply = false }

-- After a part of the request has been received.
abbrev pub part_received : Msg → Rep → Rep
part_received m s =
    if has_more m then s else record s { sending_reply = true; request_begins = true }

module _ {R : Type 0} (ops : RouterOps R) where
  abbrev pub part_out : Msg → Rep → Sent × R → Sent × Rep × R
  part_out m s (done, r) = (done, part_sent m s, r)
  part_out m s (fail e, r) = (fail e, s, r)

  unfoldable pub xsend : Msg → Rep → R → Sent × Rep × R
  xsend m s r =
      if not s.sending_reply then (fail Errno.efsm, s, r) else part_out m s (ops.xsend m r)

  -- The part has been pushed to the reply pipe; an empty one ends the envelope.
  abbrev pub pushed : (R → Got × R) → Msg → Sent × R → Got × R
  pushed k m (done, r) = let rest = k r in if length m.body == 0 then (got m, r) else rest
  pushed k m (fail e, r) = (aborted, r)

  -- A part of the envelope, or the end of a message without an end of the envelope.
  abbrev pub label : (R → Got × R) → Got × R → Got × R
  label k (got m, r) =
      let forward = pushed k m (ops.xsend m r) in
      let discard = k (ops.rollback r) in if has_more m then forward else discard
  label k (fail e, r) = (fail e, r)
  label k (aborted, r) = (aborted, r)
  label k (hung, r) = (hung, r)

  -- while (true) { ... }: the envelope is copied to the reply pipe.
  unfoldable pub copy_labels : ℕ → R → Got × R
  copy_labels zero r = (hung, r)
  copy_labels (suc fuel) r = label (copy_labels fuel) (ops.xrecv r)

  abbrev pub part_in : Rep → Got × R → Got × Rep × R
  part_in s (got m, r) = (got m, part_received m s, r)
  part_in s (fail e, r) = (fail e, s, r)
  part_in s (aborted, r) = (aborted, s, r)
  part_in s (hung, r) = (hung, s, r)

  -- The part after the envelope.
  abbrev pub after_labels : Rep → Got × R → Got × Rep × R
  after_labels s (got m, r) = part_in (record s { request_begins = false }) (ops.xrecv r)
  after_labels s (fail e, r) = (fail e, s, r)
  after_labels s (aborted, r) = (aborted, s, r)
  after_labels s (hung, r) = (hung, s, r)

  unfoldable pub xrecv : ℕ → Rep → R → Got × Rep × R
  xrecv fuel s r =
      if s.sending_reply
      then (fail Errno.efsm, s, r)
      else if s.request_begins
      then after_labels s (copy_labels fuel r)
      else part_in s (ops.xrecv r)

  unfoldable pub xhas_in : Rep → R → Readable × R
  xhas_in s r = if s.sending_reply then (readable false, r) else ops.xhas_in r

  unfoldable pub xhas_out : Rep → R → Bool × R
  xhas_out s r = if not s.sending_reply then (false, r) else ops.xhas_out r
