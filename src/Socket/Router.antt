-- ===== src/Socket/Router.antt =====
-- src/router.cpp and router.hpp, `router_t`, and the map of src/socket_base.cpp: a message is sent to
-- the pipe that its first part names, and received behind a part that names its pipe.
pub mod Receive
pub mod Ops
pub mod Route
use zmq_cn_comment.Base.{
  ℕ, ◌-◌, ◌%◌, Bool, true, false, not, ◌&&◌, ◌||◌, Option, none, some, List, [], ◌∷◌, length,
  if◌then◌else◌, ◌==◌, equal_bytes,
}
use zmq_cn_comment.Errno.{Errno}
use zmq_cn_comment.Message.{Msg, has_more, init}
use zmq_cn_comment.Routing.Pipes.{Pipes}
use zmq_cn_comment.Routing.Fq.{Fq}
use zmq_cn_comment.Routing.Fq
use zmq_cn_comment.Socket.Rep.{Sent, done, fail}

-- `out_pipe_t`.
pub record OutPipe : Type 0 where
  pub pipe : ℕ
  pub active : Bool

-- `_out_pipes`, a map from routing ids.
abbrev pub OutPipes : Type 0
OutPipes = List (List ℕ × OutPipe)

-- `option_raw` is options.raw_socket.
pub record Router : Type 0 where
  pub fq : Fq
  pub prefetched : Bool
  pub routing_id_sent : Bool
  pub prefetched_id : Msg
  pub prefetched_msg : Msg
  pub current_in : Option ℕ
  pub terminate_current_in : Bool
  pub more_in : Bool
  pub current_out : Option ℕ
  pub more_out : Bool
  pub mandatory : Bool
  pub raw_socket : Bool
  pub option_raw : Bool
  pub out_pipes : OutPipes

-- The constructor's state.
abbrev pub start : Router
start = record {
  fq = Fq.start;
  prefetched = false;
  routing_id_sent = false;
  prefetched_id = init;
  prefetched_msg = init;
  current_in = none;
  terminate_current_in = false;
  more_in = false;
  current_out = none;
  more_out = false;
  mandatory = false;
  raw_socket = false;
  option_raw = false;
  out_pipes = [];
}

-- What the router asks of its pipes beyond what the routing does.
pub record RouterPipes (W : Type 0) : Type 0 where
  pub io : Pipes W
  pub routing_id : ℕ → List ℕ
  pub terminate : ℕ → Bool → W → W

-- `lookup_out_pipe`.
abbrev pub lookup_out_pipe : List ℕ → OutPipes → Option OutPipe
lookup_out_pipe id [] = none
lookup_out_pipe id ((k, o) ∷ rest) =
    let later = lookup_out_pipe id rest in if equal_bytes k id then some o else later

-- out_pipe->active = false;
abbrev pub deactivate : List ℕ → OutPipes → OutPipes
deactivate id [] = []
deactivate id ((k, o) ∷ rest) =
    let later = deactivate id rest in
    if equal_bytes k id then (k, record o { active = false }) ∷ rest else (k, o) ∷ later

-- reset_flags (msg_t::more)
abbrev pub reset_more : Msg → Msg
reset_more m = record m { flags = m.flags - m.flags % 2 }

module _ {W : Type 0} (pipes : RouterPipes W) where
  -- The pipe of the routing id takes no message: it is full, or closed.
  abbrev pub refused : List ℕ → Bool → Router → W → Sent × Router × W
  refused id pipe_full s w =
      let s1 = record s { out_pipes = deactivate id s.out_pipes; current_out = none } in
      if s.mandatory
      then (
        fail (if pipe_full then Errno.eagain else Errno.ehostunreach),
        record s1 { more_out = false },
        w,
      )
      else (done, s1, w)

  -- The first part names the pipe.
  abbrev pub choose_pipe : List ℕ → Option OutPipe → Router → W → Sent × Router × W
  choose_pipe id none s w =
      if s.mandatory
      then (fail Errno.ehostunreach, record s { more_out = false }, w)
      else (done, s, w)
  choose_pipe id (some o) s w =
      let r = pipes.io.check_write o.pipe w in
      let full = not (pipes.io.check_hwm o.pipe r.1) in
      if r.0 then (done, record s { current_out = some o.pipe }, r.1) else refused id full s r.1

  unfoldable pub first_part : Msg → Router → W → Sent × Router × W
  first_part m s w =
      if has_more m
      then choose_pipe m.body (lookup_out_pipe m.body s.out_pipes) (record s { more_out = true }) w
      else (done, s, w)

  -- The part has been written or refused; a refusing pipe is gone.
  abbrev pub after_write : ℕ → Router → Bool × W → Sent × Router × W
  after_write p s (false, w) = (done, record s { current_out = none }, pipes.io.rollback p w)
  after_write p s (true, w) =
      if s.more_out
      then (done, s, w)
      else (done, record s { current_out = none }, pipes.io.flush p w)

  abbrev pub write_part : Option ℕ → Msg → Router → W → Sent × Router × W
  write_part none m s w = (done, s, w)
  write_part (some p) m s w =
      if s.raw_socket && (length m.body == 0)
      then (done, record s { current_out = none }, pipes.terminate p false w)
      else after_write p s (pipes.io.write p m w)

  unfoldable pub next_part : Msg → Router → W → Sent × Router × W
  next_part m s w =
      let m1 = if s.option_raw then reset_more m else m in
      write_part s.current_out m1 (record s { more_out = has_more m1 }) w

  -- zmq_assert (!_current_out), where no part is under way, is the predicate Settled of Route.
  unfoldable pub xsend : Msg → Router → W → Sent × Router × W
  xsend m s w = if s.more_out then next_part m s w else first_part m s w

  -- Nothing is done where no pipe was chosen.
  abbrev pub rollback_out : Option ℕ → Router → W → Router × W
  rollback_out none s w = (s, w)
  rollback_out (some p) s w =
      (record s { current_out = none; more_out = false }, pipes.io.rollback p w)

  unfoldable pub rollback : Router → W → Router × W
  rollback s w = rollback_out s.current_out s w

  -- Any pipe below its limit.
  abbrev pub any_below : OutPipes → W → Bool
  any_below [] w = false
  any_below ((k, o) ∷ rest) w = pipes.io.check_hwm o.pipe w || any_below rest w

  unfoldable pub xhas_out : Router → W → Bool
  xhas_out s w = if not s.mandatory then true else any_below s.out_pipes w
