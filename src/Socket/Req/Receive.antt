-- ===== src/Socket/Req/Receive.antt =====
-- src/req.cpp, `req_t::xrecv` and `recv_reply_pipe`.
use zmq_cn_comment.Base.{ℕ, zero, suc, false, not, if◌then◌else◌}
use zmq_cn_comment.Message.{Msg, has_more}
use zmq_cn_comment.Routing.Fq
use zmq_cn_comment.Socket.Req.{
  Req, DealerOps, Got, efsm, again, aborted, hung, got, from_reply_pipe, part_received, is_id,
  is_bottom,
}

module _ {D : Type 0} (ops : DealerOps D) where
  -- The first part from the reply pipe; parts from other pipes are dropped.
  abbrev pub from_pipe : Req → (D → Got × D) → Fq.Outcome × D → Got × D
  from_pipe r k (Fq.received m p, d) =
      let rest = k d in if from_reply_pipe r.reply_pipe p then (got m, d) else rest
  from_pipe r k (Fq.again, d) = (again, d)
  from_pipe r k (Fq.aborted, d) = (aborted, d)

  unfoldable pub recv_reply_pipe : ℕ → Req → D → Got × D
  recv_reply_pipe zero r d = (hung, d)
  recv_reply_pipe (suc fuel) r d = from_pipe r (recv_reply_pipe fuel r) (ops.recvpipe d)

  -- errno_assert (rc == 0)
  abbrev pub asserted : Got × D → Got × D
  asserted (got m, d) = (got m, d)
  asserted (efsm, d) = (aborted, d)
  asserted (again, d) = (aborted, d)
  asserted (aborted, d) = (aborted, d)
  asserted (hung, d) = (hung, d)

  abbrev pub then_got : {A : Type 0} → (Got × D → A) → (Msg → D → A) → Got × D → A
  then_got stop k (got m, d) = k m d
  then_got stop k (efsm, d) = stop (efsm, d)
  then_got stop k (again, d) = stop (again, d)
  then_got stop k (aborted, d) = stop (aborted, d)
  then_got stop k (hung, d) = stop (hung, d)

  -- while (msg_->flags () & msg_t::more) { ... }: the remaining parts of a message that is skipped.
  unfoldable pub skip_rest : ℕ → Req → Msg → D → Got × D
  skip_rest zero r m d = (hung, d)
  skip_rest (suc fuel) r m d =
      let rest = then_got (λ x. x) (skip_rest fuel r) (asserted (recv_reply_pipe (suc fuel) r d)) in
      if has_more m then rest else (got m, d)

  abbrev pub stop_with : Req → Got × D → Got × Req × D
  stop_with r (g, d) = (g, r, d)

  -- The part after the envelope.
  unfoldable pub recv_part : ℕ → Req → D → Got × Req × D
  recv_part fuel r d =
      then_got (stop_with r) (λ m d'. (got m, part_received m r, d')) (recv_reply_pipe fuel r d)

  -- The rounds of the loop over messages, from the beginning of one; `k` is the next round.
  abbrev pub skip_message : ℕ → Req → (D → Got × Req × D) → Msg → D → Got × Req × D
  skip_message fuel r k m d = then_got (stop_with r) (λ x d'. k d') (skip_rest fuel r m d)

  abbrev pub check_bottom : ℕ → Req → (D → Got × Req × D) → Msg → D → Got × Req × D
  check_bottom fuel r k m d =
      let skipped = skip_message fuel r k m d in
      if is_bottom m then recv_part fuel (record r { message_begins = false }) d else skipped

  abbrev pub expect_bottom : ℕ → Req → (D → Got × Req × D) → D → Got × Req × D
  expect_bottom fuel r k d =
      then_got (stop_with r) (check_bottom fuel r k) (recv_reply_pipe fuel r d)

  abbrev pub check_id : ℕ → Req → (D → Got × Req × D) → Msg → D → Got × Req × D
  check_id fuel r k m d =
      let skipped = skip_message fuel r k m d in
      let next = expect_bottom fuel r k d in if is_id r m then next else skipped

  -- while (message_begins) { ... }
  unfoldable pub find_reply : ℕ → Req → D → Got × Req × D
  find_reply zero r d = (hung, r, d)
  find_reply (suc fuel) r d =
      let k = find_reply fuel r in
      let with_id =
        then_got (stop_with r) (check_id (suc fuel) r k) (recv_reply_pipe (suc fuel) r d) in
      let without_id = expect_bottom (suc fuel) r k d in
      if r.request_id_frames_enabled then with_id else without_id

  unfoldable pub xrecv : ℕ → Req → D → Got × Req × D
  xrecv fuel r d =
      if not r.receiving_reply
      then (efsm, r, d)
      else if r.message_begins
      then find_reply fuel r d
      else recv_part fuel r d
