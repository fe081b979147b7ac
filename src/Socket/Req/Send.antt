-- ===== src/Socket/Req/Send.antt =====
-- src/req.cpp, `req_t::xsend`.
use zmq_cn_comment.Base.{ℕ, zero, suc, ◌+◌, ◌%◌, ◌^◌, true, false, ◌&&◌, none, if◌then◌else◌}
use zmq_cn_comment.Message.{Msg, has_more}
use zmq_cn_comment.Routing.Fq
use zmq_cn_comment.Routing.Lb
use zmq_cn_comment.Socket.Req.{
  Req, DealerOps, Sent, done, efsm, again, broken, aborted, hung, id_part, bottom_part, set_pipe,
  is_some, part_sent,
}

module _ {D : Type 0} (ops : DealerOps D) where
  abbrev pub drained : (D → Sent × D) → Fq.Outcome × D → Sent × D
  drained k (Fq.received m p, d) = k d
  drained k (Fq.again, d) = (done, d)
  drained k (Fq.aborted, d) = (aborted, d)

  -- while (true) { rc = dealer_t::xrecv (&drop); if (rc != 0) break; }
  unfoldable pub drain : ℕ → D → Sent × D
  drain zero d = (hung, d)
  drain (suc fuel) d = drained (drain fuel) (ops.recvpipe d)

  abbrev pub part_out : Msg → Req → Lb.Outcome × D → Sent × Req × D
  part_out m r (Lb.sent p, d) = (done, part_sent (has_more m) r, d)
  part_out m r (Lb.again, d) = (again, r, d)
  part_out m r (Lb.broken, d) = (broken, r, d)

  -- The part that the caller sends.
  unfoldable pub send_part : Msg → Req → D → Sent × Req × D
  send_part m r d = part_out m r (ops.sendpipe m d)

  -- The end of the envelope is out: eat what can be read, then send the part.
  abbrev pub then_send : Msg → Req → Sent × D → Sent × Req × D
  then_send m r (done, d) = send_part m r d
  then_send m r (efsm, d) = (efsm, r, d)
  then_send m r (again, d) = (again, r, d)
  then_send m r (broken, d) = (broken, r, d)
  then_send m r (aborted, d) = (aborted, r, d)
  then_send m r (hung, d) = (hung, r, d)

  -- The result of sending the end of the envelope; zmq_assert (reply_pipe).
  abbrev pub bottom_sent : ℕ → Msg → Req → Lb.Outcome × D → Sent × Req × D
  bottom_sent fuel m r (Lb.sent p, d) =
      let r1 = set_pipe p r in
      let r2 = record r1 { message_begins = false } in
      let rest = then_send m r2 (drain fuel d) in
      if is_some r1.reply_pipe then rest else (aborted, r1, d)
  bottom_sent fuel m r (Lb.again, d) = (again, r, d)
  bottom_sent fuel m r (Lb.broken, d) = (again, r, d)

  abbrev pub send_bottom : ℕ → Msg → Req → D → Sent × Req × D
  send_bottom fuel m r d = bottom_sent fuel m r (ops.sendpipe bottom_part d)

  -- The result of sending the number of the request.
  abbrev pub id_sent : ℕ → Msg → Req → Lb.Outcome × D → Sent × Req × D
  id_sent fuel m r (Lb.sent p, d) = send_bottom fuel m (set_pipe p r) d
  id_sent fuel m r (Lb.again, d) = (again, r, d)
  id_sent fuel m r (Lb.broken, d) = (again, r, d)

  -- The envelope, and the first part.
  unfoldable pub begin : ℕ → Msg → Req → D → Sent × Req × D
  begin fuel m r d =
      let r1 = record r { reply_pipe = none } in
      let next = (r.request_id + 1) % 2 ^ 32 in
      let r2 = record r1 { request_id = next } in
      if r.request_id_frames_enabled
      then id_sent fuel m r2 (ops.sendpipe (id_part next) d)
      else send_bottom fuel m r1 d

  -- A pending request is given up.
  abbrev pub give_up : Req → Req
  give_up r =
      if r.receiving_reply then record r { receiving_reply = false; message_begins = true } else r

  unfoldable pub xsend : ℕ → Msg → Req → D → Sent × Req × D
  xsend fuel m r d =
      let r1 = give_up r in
      if r.receiving_reply && r.strict
      then (efsm, r, d)
      else if r1.message_begins
      then begin fuel m r1 d
      else send_part m r1 d
