-- ===== src/Pipe/Handshake.antt =====
-- The two ends of a pipe (src/pipe.cpp) and the commands between them (src/object.cpp): either end
-- may terminate at any time, and each handles the commands of the other in the order sent.
pub mod Control
pub mod States
pub mod Together
pub mod Safety
pub mod Hiccup
mod Tests
use zmq_cn_comment.Base.{
  ℕ, ◌≡◌, Bool, true, false, ◌||◌, ◌&&◌, not, List, [], ◌∷◌, ◌++◌, Option, none, some,
  if◌then◌else◌,
}
use zmq_cn_comment.Pipe.{
  Pipe, State, active, delimiter_received, waiting_for_delimiter, term_ack_sent, term_req_sent1,
  term_req_sent2, Effect, activate_read, activate_write, hiccup, pipe_term, pipe_term_ack,
  read_activated, write_activated, hiccuped, terminated, process_delimiter, is_readable, ◌>>=◌,
}
use zmq_cn_comment.Pipe.Terminate.{set_nodelay, terminate, process_pipe_term, process_pipe_term_ack}

-- The commands that terminate the pipe. The others (activate_read, activate_write and hiccup) move no end
-- to another state and are not kept in the inboxes; that they find the other end there, and what the
-- handler of hiccup asserts, is stated by itself in Safety and Hiccup.
abbrev pub commands : List Effect → List Effect
commands [] = []
commands (pipe_term ∷ es) = pipe_term ∷ commands es
commands (pipe_term_ack ∷ es) = pipe_term_ack ∷ commands es
commands (activate_read ∷ es) = commands es
commands (activate_write n ∷ es) = commands es
commands (hiccup q ∷ es) = commands es
commands (read_activated ∷ es) = commands es
commands (write_activated ∷ es) = commands es
commands (hiccuped ∷ es) = commands es
commands (terminated ∷ es) = commands es

-- An end until it deletes itself, the commands that wait for it, and whether it has ever written the
-- delimiter to the other end: only then can the other end read one. It need not come to read it, since the
-- queue may be destroyed by a hiccup.
pub record End : Type 0 where
  pub pipe : Option Pipe
  pub inbox : List Effect
  pub wrote : Bool

-- What happens at an end: the user terminates it or calls set_nodelay, a command is handled, or the
-- delimiter is read.
pub data Event : Type 0 where
  terminated_by_user : Bool → Event
  nodelay deliver read_delimiter : Event

-- send_command: an end that has deleted itself must get no command.
abbrev pub post : List Effect → End → Option End
post [] e = some e
post (c ∷ cs) e = elim e.pipe [
  | none ↦ none
  | some _ ↦ some (record e { inbox = e.inbox ++ (c ∷ cs) })
]

-- The delimiter is written where the outbound queue is there, unless the end has been terminated
-- before, or acknowledges at once.
abbrev pub writes_delimiter : Bool → State → Bool
writes_delimiter delay active = true
writes_delimiter delay delimiter_received = true
writes_delimiter delay waiting_for_delimiter = delay
writes_delimiter delay _ = false

-- The end after a handler, which has sent its commands to the other end.
abbrev pub settle : End → Bool → Pipe → End → Option (End × End)
settle a wrote p b = post (commands p.sent) b >>= λ b'.
    some (record a { pipe = some p; wrote = a.wrote || wrote }, b')

-- The handler of the first command, which is taken from the inbox.
abbrev pub handle : List Effect → Pipe → End → End → Option (End × End)
handle (pipe_term ∷ cs) p a b =
    process_pipe_term p >>= λ p'. settle (record a { inbox = cs }) false p' b
handle (pipe_term_ack ∷ cs) p a b = process_pipe_term_ack p >>= λ es.
    post (commands es) b >>= λ b'. some (record a { pipe = none; inbox = cs }, b')
handle _ p a b = some (a, b)

-- An event at the end a, with the other end b. `none` is the failure of an assertion, or a command to
-- an end that has been deleted. An event that cannot happen changes nothing.
pub at_end : Event → Pipe → End → End → Option (End × End)
at_end (terminated_by_user delay) p a b =
    terminate delay p >>= λ p'. settle a (writes_delimiter delay p.state) p' b
at_end nodelay p a b = settle a false (set_nodelay p) b
at_end deliver p a b = handle a.inbox p a b
at_end read_delimiter p a b =
    if b.wrote && is_readable p.state
    then (process_delimiter p >>= λ p'. settle a false p' b)
    else some (a, b)

-- An end that has been deleted does nothing any more.
pub event : Event → End → End → Option (End × End)
unfolding at_end
event e a b = elim a.pipe [ none ↦ some (a, b) | some p ↦ at_end e (record p { sent = [] }) a b ]
