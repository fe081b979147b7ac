-- ===== src/Socket/Session.antt =====
-- src/req.cpp, `req_session_t`, on src/session_base.cpp, `push_msg`: the session of a REQ socket lets
-- through only replies that are well formed.
pub mod Accepted
pub mod Again
pub mod Replies
use zmq_cn_comment.Base.{
  ℕ, Bool, true, false, not, ◌&&◌, List, [], ◌∷◌, length, if◌then◌else◌, ◌==◌,
}
use zmq_cn_comment.Errno.{Errno}
use zmq_cn_comment.Message.{Msg, more_flag, is_command, is_subscribe, is_cancel}

-- What a call returns: 0, or -1 with errno.
pub data Rc : Type 0 where
  done : Rc
  fail : Errno → Rc

-- `_state`.
pub data State : Type 0 where
  bottom request_id body : State

-- sizeof (uint32_t)
abbrev pub id_size : ℕ
id_size = 4

-- The pipe of the session, none or one that is full or closed where `write` returns false.
module _ {W : Type 0} (write : Msg → W → Bool × W) where
  abbrev pub written : Bool × W → Rc × W
  written (true, w) = (done, w)
  written (false, w) = (fail Errno.eagain, w)

  -- `session_base_t::push_msg`: subscriptions and cancellations pass, other commands do not.
  unfoldable pub session_push : Msg → W → Rc × W
  session_push m w =
      if is_command m && not (is_subscribe m) && not (is_cancel m)
      then (done, w)
      else written (write m w)

  abbrev pub with_state : State → Rc × W → Rc × State × W
  with_state s (rc, w) = (rc, s, w)

  abbrev pub pass : State → Msg → W → Rc × State × W
  pass s m w = with_state s (session_push m w)

  abbrev pub fault : State → W → Rc × State × W
  fault s w = (fail Errno.efault, s, w)

  -- The switch over `_state`.
  abbrev pub push_at : State → Msg → W → Rc × State × W
  push_at bottom m w =
      if m.flags == more_flag
      then if length m.body == id_size
        then pass request_id m w
        else if length m.body == 0
        then pass body m w
        else fault bottom w
      else fault bottom w
  push_at request_id m w =
      if (m.flags == more_flag) && (length m.body == 0) then pass body m w else fault request_id w
  push_at body m w =
      if m.flags == more_flag
      then pass body m w
      else if m.flags == 0
      then pass bottom m w
      else fault body w

  -- `req_session_t::push_msg`.
  unfoldable pub push_msg : Msg → State → W → Rc × State × W
  push_msg m s w = if is_command m then (done, s, w) else push_at s m w

  abbrev pub then_push : (State → W → Rc × State × W) → Rc × State × W → Rc × State × W
  then_push k (done, s, w) = k s w
  then_push k (fail e, s, w) = (fail e, s, w)

  -- What the engine does with the messages that its decoder delivers, up to the first failure.
  unfoldable pub push_all : List Msg → State → W → Rc × State × W
  push_all [] s w = (done, s, w)
  push_all (m ∷ ms) s w = then_push (push_all ms) (push_msg m s w)

-- `req_session_t::reset`.
abbrev pub reset : State → State
reset s = bottom
