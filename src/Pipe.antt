-- ===== src/Pipe.antt =====
-- src/pipe.cpp and pipe.hpp, `pipe_t`: one end of a pipe. A call is a function on the state of the
-- end, which holds the two queues that it shares with the other end, and the commands and events
-- that it has sent. `none` is the failure of an assertion. The queues are those of ypipe_t
-- (`conflate` is false), and counters wrap around at 64 bits. A high water mark is a natural number,
-- 0 for any that is not positive, which means no limit; a boost is `none` while it is negative.
pub mod Terminate
pub mod Credit
pub mod Receive
pub mod Close
pub mod Handshake
mod Tests
use zmq_cn_comment.Base.{
  ℕ, zero, suc, ◌+◌, ◌-◌, ◌*◌, ◌/◌, ◌%◌, ◌^◌, Bool, true, false, not, ◌&&◌, ◌||◌, List, [], ◌∷◌,
  ◌++◌, Option, none, some, length, if◌then◌else◌, ltb, leb, ◌==◌,
}
use zmq_cn_comment.Message.{
  Msg, has_more, is_credential, is_delimiter, is_routing_id, init_delimiter,
}
use zmq_cn_comment.Ypipe.{Ypipe}
use zmq_cn_comment.Ypipe

pub data State : Type 0 where
  active delimiter_received waiting_for_delimiter term_ack_sent term_req_sent1 term_req_sent2 :
      State

-- The commands to the peer, and the events of the sink.
pub data Effect : Type 0 where
  activate_read : Effect
  activate_write : ℕ → Effect
  hiccup : Ypipe Msg → Effect
  pipe_term pipe_term_ack : Effect
  read_activated write_activated hiccuped terminated : Effect

pub record Pipe : Type 0 where
  pub in_pipe : Ypipe Msg
  pub out_pipe : Option (Ypipe Msg)
  pub in_active : Bool
  pub out_active : Bool
  pub hwm : ℕ
  pub lwm : ℕ
  pub in_hwm_boost : Option ℕ
  pub out_hwm_boost : Option ℕ
  pub msgs_read : ℕ
  pub msgs_written : ℕ
  pub peers_msgs_read : ℕ
  pub state : State
  pub delay : Bool
  pub sent : List Effect

infixl 5 ◌>>=◌
abbrev pub ◌>>=◌ : {A B : Type 0} → Option A → (A → Option B) → Option B
none >>= f = none
some a >>= f = f a

-- zmq_assert
abbrev pub assert : Bool → Option (Unit {0})
assert true = some tt
assert false = none

-- The difference of two counters of 64 bits.
abbrev pub minus64 : ℕ → ℕ → ℕ
minus64 a b = (a + 2 ^ 64 - b) % 2 ^ 64

abbrev pub compute_lwm : ℕ → ℕ
compute_lwm hwm = (hwm + 1) / 2

-- The constructor's state.
abbrev pub start : Ypipe Msg → Ypipe Msg → ℕ → ℕ → Pipe
start inpipe outpipe inhwm outhwm = record {
  in_pipe = inpipe;
  out_pipe = some outpipe;
  in_active = true;
  out_active = true;
  hwm = outhwm;
  lwm = compute_lwm inhwm;
  in_hwm_boost = none;
  out_hwm_boost = none;
  msgs_read = 0;
  msgs_written = 0;
  peers_msgs_read = 0;
  state = active;
  delay = true;
  sent = [];
}

abbrev pub send : Effect → Pipe → Pipe
send e p = record p { sent = p.sent ++ (e ∷ []) }

abbrev pub is_active : State → Bool
is_active active = true
is_active _ = false

abbrev pub is_term_ack_sent : State → Bool
is_term_ack_sent term_ack_sent = true
is_term_ack_sent _ = false

-- state == active || state == waiting_for_delimiter
abbrev pub is_readable : State → Bool
is_readable active = true
is_readable waiting_for_delimiter = true
is_readable _ = false

-- while (out_pipe->unwrite (&msg)) zmq_assert (msg.flags () & msg_t::more);
pub rollback_loop : ℕ → Ypipe Msg → Option (Ypipe Msg)
rollback_loop zero q = some q
rollback_loop (suc fuel) q =
    let r = Ypipe.unwrite q in
    let rest = rollback_loop fuel r.1 in
    elim r.0 [ none ↦ some q | some m ↦ if has_more m then rest else none ]

pub rollback : Pipe → Option Pipe
unfolding rollback_loop
rollback p = elim p.out_pipe [
  | none ↦ some p
  | some q ↦ rollback_loop (length q.items) q >>= λ q'. some (record p { out_pipe = some q' })
]

pub flush : Pipe → Pipe
flush p = if is_term_ack_sent p.state then p else elim p.out_pipe [
  | none ↦ p
  | some q ↦
      let r = Ypipe.flush q in
      if r.0
      then record p { out_pipe = some r.1 }
      else send activate_read (record p { out_pipe = some r.1 })
]

-- rollback (); out_pipe = NULL; send_pipe_term_ack (peer); state = term_ack_sent;
pub acknowledge : Pipe → Option Pipe
unfolding rollback
acknowledge p = rollback p >>= λ q.
    some (record (send pipe_term_ack q) { out_pipe = none; state = term_ack_sent })

pub process_delimiter : Pipe → Option Pipe
unfolding acknowledge
process_delimiter p = elim p.state [
  | active ↦ some (record p { state = delimiter_received })
  | waiting_for_delimiter ↦ acknowledge p
  | _ ↦ none
]

pub check_read : Pipe → Option (Bool × Pipe)
unfolding process_delimiter
check_read p =
    let c = Ypipe.check_read p.in_pipe in
    let d = Ypipe.probe is_delimiter c.1 in
    let r = Ypipe.read d.1 in
    if not p.in_active
    then some (false, p)
    else if not (is_readable p.state)
    then some (false, p)
    else if not c.0
    then some (false, record p { in_pipe = c.1; in_active = false })
    else elim d.0 [
      | none ↦ none
      | some false ↦ some (true, record p { in_pipe = d.1 })
      | some true ↦ elim r.0 [
        | none ↦ none
        | some m ↦ process_delimiter (record p { in_pipe = r.1 }) >>= λ q. some (false, q)
      ]
    ]

-- while (true) { if (!in_pipe->read (msg)) ...; if (!msg->is_credential ()) break; }
pub read_loop : ℕ → Ypipe Msg → Option Msg × Ypipe Msg
read_loop zero q = (none, q)
read_loop (suc fuel) q =
    let r = Ypipe.read q in
    let rest = read_loop fuel r.1 in
    elim r.0 [ none ↦ (none, r.1) | some m ↦ if is_credential m then rest else (some m, r.1) ]

-- if (lwm > 0 && msgs_read % lwm == 0) send_activate_write (peer, msgs_read);
abbrev pub report_read : Pipe → Pipe
report_read p =
    if ltb 0 p.lwm && (p.msgs_read % p.lwm == 0) then send (activate_write p.msgs_read) p else p

-- The message that was read, or none for `false`. Each round of the loop takes an item.
pub read : Pipe → Option (Option Msg × Pipe)
unfolding read_loop process_delimiter
read p =
    let r = read_loop (length p.in_pipe.items + 1) p.in_pipe in
    let q = record p { in_pipe = r.1 } in
    if not p.in_active
    then some (none, p)
    else if not (is_readable p.state)
    then some (none, p)
    else elim r.0 [
      | none ↦ some (none, record q { in_active = false })
      | some m ↦
          if is_delimiter m
          then (process_delimiter q >>= λ q'. some (none, q'))
          else if not (has_more m) && not (is_routing_id m)
          then some (some m, report_read (record q { msgs_read = (q.msgs_read + 1) % 2 ^ 64 }))
          else some (some m, report_read q)
    ]

-- Whether the high water mark is not reached.
pub check_hwm : Pipe → Bool
check_hwm p = not (ltb 0 p.hwm && leb p.hwm (minus64 p.msgs_written p.peers_msgs_read))

pub check_write : Pipe → Bool × Pipe
unfolding check_hwm
check_write p =
    if not p.out_active || not (is_active p.state)
    then (false, p)
    else if not (check_hwm p)
    then (false, record p { out_active = false })
    else (true, p)

-- `none` is the use of a NULL pointer.
pub write : Msg → Pipe → Option (Bool × Pipe)
unfolding check_write
write m p =
    let c = check_write p in
    if not c.0
    then some (false, c.1)
    else (c.1.out_pipe >>= λ q. some (
      true,
      record (c.1) {
        out_pipe = some (Ypipe.write m (has_more m) q);
        msgs_written =
            if not (has_more m) && not (is_routing_id m)
            then (c.1.msgs_written + 1) % 2 ^ 64
            else c.1.msgs_written;
      },
    ))

pub process_activate_read : Pipe → Pipe
process_activate_read p =
    if not p.in_active && is_readable p.state
    then send read_activated (record p { in_active = true })
    else p

pub process_activate_write : ℕ → Pipe → Pipe
process_activate_write msgs_read p =
    if not p.out_active && is_active p.state
    then send write_activated (record p { peers_msgs_read = msgs_read; out_active = true })
    else record p { peers_msgs_read = msgs_read }
