-- ===== src/Pipe/Terminate.antt =====
-- src/pipe.cpp, the rest of `pipe_t`: termination from either side, the exchange of a queue in a
-- hiccup, and the high water marks.
use zmq_cn_comment.Base.{
  ℕ, zero, suc, ◌+◌, Bool, true, false, not, List, Option, none, some, length, if◌then◌else◌, ◌==◌,
}
use zmq_cn_comment.Message.{Msg, has_more, init_delimiter}
use zmq_cn_comment.Ypipe.{Ypipe}
use zmq_cn_comment.Ypipe
use zmq_cn_comment.Pipe.{
  Pipe, active, delimiter_received, waiting_for_delimiter, term_ack_sent, term_req_sent1,
  term_req_sent2, Effect, hiccup, hiccuped, pipe_term, pipe_term_ack, terminated, send, is_active,
  minus64, compute_lwm, rollback, flush, acknowledge, ◌>>=◌,
}

-- while (out_pipe->read (&msg)) if (!(msg.flags () & msg_t::more)) msgs_written--;
pub drain_loop : ℕ → Ypipe Msg → ℕ → ℕ
drain_loop zero q written = written
drain_loop (suc fuel) q written =
    let r = Ypipe.read q in
    elim r.0 [
      | none ↦ written
      | some m ↦ drain_loop fuel r.1 (if has_more m then written else minus64 written 1)
    ]

-- The old queue is destroyed; `pipe` is the new one.
unfoldable pub process_hiccup : Ypipe Msg → Pipe → Option Pipe
unfolding drain_loop
process_hiccup pipe p = p.out_pipe >>= λ q.
    (let written = drain_loop (length q.items + 1) (Ypipe.flush q).1 p.msgs_written in
      let next = record p { out_pipe = some pipe; out_active = true; msgs_written = written } in
      some (if is_active p.state then send hiccuped next else next))

unfoldable pub process_pipe_term : Pipe → Option Pipe
process_pipe_term p =
    let ack = send pipe_term_ack (record p { out_pipe = none }) in
    elim p.state [
      | active ↦
          if p.delay
          then some (record p { state = waiting_for_delimiter })
          else some (record ack { state = term_ack_sent })
      | delimiter_received ↦ some (record ack { state = term_ack_sent })
      | term_req_sent1 ↦ some (record ack { state = term_req_sent2 })
      | _ ↦ none
    ]

-- What is sent before the end deletes its inbound queue and itself.
unfoldable pub process_pipe_term_ack : Pipe → Option (List Effect)
process_pipe_term_ack p =
    let told = send terminated p in
    elim p.state [
      | term_req_sent1 ↦ some (send pipe_term_ack told).sent
      | term_ack_sent ↦ some told.sent
      | term_req_sent2 ↦ some told.sent
      | _ ↦ none
    ]

abbrev pub set_nodelay : Pipe → Pipe
set_nodelay p = record p { delay = false }

-- The end of `terminate`: no more messages, and the delimiter.
unfoldable pub close_out : Pipe → Option Pipe
unfolding rollback flush
close_out p = rollback (record p { out_active = false }) >>= λ q. elim q.out_pipe [
  | none ↦ some q
  | some out ↦ some (flush (record q { out_pipe = some (Ypipe.write init_delimiter false out) }))
]

unfoldable pub terminate : Bool → Pipe → Option Pipe
unfolding close_out acknowledge
terminate delay p =
    let q = record p { delay = delay } in
    elim p.state [
      | term_req_sent1 ↦ some q
      | term_req_sent2 ↦ some q
      | term_ack_sent ↦ some q
      | active ↦ close_out (record (send pipe_term q) { state = term_req_sent1 })
      | waiting_for_delimiter ↦ if not delay then (acknowledge q >>= close_out) else close_out q
      | delimiter_received ↦ close_out (record (send pipe_term q) { state = term_req_sent1 })
    ]

-- `pipe` is the new queue.
abbrev pub hiccup_with : Ypipe Msg → Pipe → Pipe
hiccup_with pipe p =
    if is_active p.state
    then send (hiccup pipe) (record p { in_pipe = pipe; in_active = true })
    else p

-- A limit with its boost: none is negative, and 0 takes the limit away.
abbrev pub boosted : ℕ → Option ℕ → ℕ
boosted zero boost = 0
boosted (suc n) none = suc n
boosted (suc n) (some b) = if b == 0 then 0 else suc n + b

pub set_hwms : ℕ → ℕ → Pipe → Pipe
set_hwms inhwm outhwm p = record p {
  lwm = compute_lwm (boosted inhwm p.in_hwm_boost);
  hwm = boosted outhwm p.out_hwm_boost;
}

abbrev pub set_hwms_boost : Option ℕ → Option ℕ → Pipe → Pipe
set_hwms_boost inboost outboost p = record p { in_hwm_boost = inboost; out_hwm_boost = outboost }
