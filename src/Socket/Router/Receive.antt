-- ===== src/Socket/Router/Receive.antt =====
-- src/router.cpp, `router_t::xrecv` and `xhas_in`: the routing id of the pipe comes before the message.
use zmq_cn_comment.Base.{ℕ, zero, suc, Bool, true, false, Option, none, some, length, if◌then◌else◌}
use zmq_cn_comment.Errno.{Errno}
use zmq_cn_comment.Message.{Msg, more_flag, has_more, is_routing_id, type_of_size}
use zmq_cn_comment.Routing.Fq.{Fq, recvpipe}
use zmq_cn_comment.Routing.Fq
use zmq_cn_comment.Socket.Rep.{
  Readable, readable, failed_assertion, no_fuel, Got, got, fail, aborted, hung,
}
use zmq_cn_comment.Socket.Router.{Router, RouterPipes}

-- A message that holds the routing id of a pipe, with the more flag.
abbrev pub id_part : {W : Type 0} → RouterPipes W → ℕ → Msg
id_part pipes p = record {
  type = type_of_size (length (pipes.routing_id p));
  flags = more_flag;
  body = pipes.routing_id p;
}

module _ {W : Type 0} (pipes : RouterPipes W) where
  -- while (rc == 0 && msg_->is_routing_id ()) rc = _fq.recvpipe (msg_, &pipe);
  -- `none` where the fuel was too little.
  abbrev pub past_ids :
      (Fq → W → Option (Fq.Outcome × Fq × W)) → Fq.Outcome × Fq × W → Option (Fq.Outcome × Fq × W)
  past_ids k (Fq.received m p, f, w) =
      let rest = k f w in if is_routing_id m then rest else some (Fq.received m p, f, w)
  past_ids k (Fq.again, f, w) = some (Fq.again, f, w)
  past_ids k (Fq.aborted, f, w) = some (Fq.aborted, f, w)

  unfoldable pub next_message : ℕ → Fq → W → Option (Fq.Outcome × Fq × W)
  next_message zero f w = none
  next_message (suc fuel) f w = past_ids (next_message fuel) (recvpipe pipes.io f w)

  -- The pipe is to be terminated once its message has been read.
  abbrev pub terminate_in : Bool → Option ℕ → W → W
  terminate_in true (some p) w = pipes.terminate p true w
  terminate_in true none w = w
  terminate_in false p w = w

  -- _more_in, and what happens behind a last part.
  abbrev pub handed_out : Msg → Router → W → Got × Router × W
  handed_out m s w = if has_more m then (got m, record s { more_in = true }, w) else (
    got m,
    record s { more_in = false; terminate_current_in = false; current_in = none },
    terminate_in s.terminate_current_in s.current_in w,
  )

  abbrev pub from_prefetched : Router → W → Got × Router × W
  from_prefetched s w =
      if s.routing_id_sent
      then handed_out s.prefetched_msg (record s { prefetched = false }) w
      else handed_out s.prefetched_id (record s { routing_id_sent = true }) w

  -- A part has been read: it is the next one, or the first one of a message, which has to wait.
  abbrev pub part_read : Msg → ℕ → Router → W → Got × Router × W
  part_read m p s w = if s.more_in then handed_out m s w else (
    got (id_part pipes p),
    record s { prefetched = true; prefetched_msg = m; current_in = some p; routing_id_sent = true },
    w,
  )

  abbrev pub with_outcome : Router → Option (Fq.Outcome × Fq × W) → W → Got × Router × W
  with_outcome s none w = (hung, s, w)
  with_outcome s (some (Fq.received m p, f, w')) w = part_read m p (record s { fq = f }) w'
  with_outcome s (some (Fq.again, f, w')) w = (fail Errno.eagain, record s { fq = f }, w')
  with_outcome s (some (Fq.aborted, f, w')) w = (aborted, record s { fq = f }, w')

  unfoldable pub xrecv : ℕ → Router → W → Got × Router × W
  xrecv fuel s w =
      if s.prefetched then from_prefetched s w else with_outcome s (next_message fuel s.fq w) w

  abbrev pub prefetch : Router → Option (Fq.Outcome × Fq × W) → W → Readable × Router × W
  prefetch s none w = (no_fuel, s, w)
  prefetch s (some (Fq.received m p, f, w')) w = (
    readable true,
    record s {
      fq = f;
      prefetched_msg = m;
      prefetched_id = id_part pipes p;
      prefetched = true;
      routing_id_sent = false;
      current_in = some p;
    },
    w',
  )
  prefetch s (some (Fq.again, f, w')) w = (readable false, record s { fq = f }, w')
  prefetch s (some (Fq.aborted, f, w')) w = (failed_assertion, record s { fq = f }, w')

  unfoldable pub xhas_in : ℕ → Router → W → Readable × Router × W
  xhas_in fuel s w =
      if s.more_in
      then (readable true, s, w)
      else if s.prefetched
      then (readable true, s, w)
      else prefetch s (next_message fuel s.fq w) w
