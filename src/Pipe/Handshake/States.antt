-- ===== src/Pipe/Handshake/States.antt =====
-- The states in which the two ends of a pipe can be together, and how they move on.
use zmq_cn_comment.Base.{
  ℕ, ◌≡◌, ◌+◌, ◌≤◌, ◌<◌, length, refl, Bool, true, false, List, [], ◌∷◌, ◌++◌, append-nil, Option,
  none, some, arith,
}
use zmq_cn_comment.Pipe.{
  State, active, delimiter_received, waiting_for_delimiter, term_ack_sent, term_req_sent1,
  term_req_sent2, Effect, pipe_term, pipe_term_ack, is_readable,
}
use zmq_cn_comment.Pipe.Handshake.Control.{
  after_terminate, after_delimiter, after_term, after_ack, takes_term, takes_ack,
}

-- The states of two ends that occur together, with the commands that wait for each.
pub allowed : Option State → Option State → List Effect → List Effect → Bool
allowed (some active) (some active) [] [] = true
allowed (some active) (some term_req_sent1) (pipe_term ∷ []) [] = true
allowed (some term_req_sent1) (some active) [] (pipe_term ∷ []) = true
allowed (some delimiter_received) (some term_req_sent1) (pipe_term ∷ []) [] = true
allowed (some term_req_sent1) (some delimiter_received) [] (pipe_term ∷ []) = true
allowed (some waiting_for_delimiter) (some term_req_sent1) [] [] = true
allowed (some term_req_sent1) (some waiting_for_delimiter) [] [] = true
allowed (some term_ack_sent) (some term_req_sent1) [] (pipe_term_ack ∷ []) = true
allowed (some term_req_sent1) (some term_ack_sent) (pipe_term_ack ∷ []) [] = true
allowed (some term_ack_sent) none (pipe_term_ack ∷ []) [] = true
allowed none (some term_ack_sent) [] (pipe_term_ack ∷ []) = true
allowed (some term_req_sent1) (some term_req_sent1) (pipe_term ∷ []) (pipe_term ∷ []) = true
allowed (some term_req_sent1) (some term_req_sent2) (pipe_term ∷ pipe_term_ack ∷ []) [] = true
allowed (some term_req_sent2) (some term_req_sent1) [] (pipe_term ∷ pipe_term_ack ∷ []) = true
allowed (some term_req_sent2) (some term_req_sent2) (pipe_term_ack ∷ []) (pipe_term_ack ∷ []) = true
allowed (some term_req_sent2) none (pipe_term_ack ∷ []) [] = true
allowed none (some term_req_sent2) [] (pipe_term_ack ∷ []) = true
allowed none none [] [] = true
allowed _ _ _ _ = false

pub allowed_start : allowed (some active) (some active) [] [] ≡ true
unfolding allowed
allowed_start = refl

-- How many steps of the handshake are left, together with one for each command that waits.
abbrev pub weight : Option State → ℕ
weight (some active) = 2
weight (some waiting_for_delimiter) = 2
weight (some delimiter_received) = 1
weight (some term_req_sent1) = 1
weight _ = 0

abbrev pub is_open : Option State → Bool
is_open none = false
is_open (some active) = true
is_open (some _) = false

-- Whether commands find the end there.
abbrev pub reaches : List Effect → Option State → Bool
reaches [] y = true
reaches (c ∷ cs) none = false
reaches (c ∷ cs) (some y) = true

pub terminate_allowed :
    (delay : Bool) (x : State) (y : Option State) (m n : List Effect)
    → allowed (some x) y m n ≡ true
    → (reaches (after_terminate delay x).1 y ≡ true)
      × (allowed (some (after_terminate delay x).0) y m (n ++ (after_terminate delay x).1) ≡ true)
unfolding allowed
terminate_allowed delay active y m n h = ground arith
terminate_allowed delay delimiter_received y m n h = ground arith
terminate_allowed true waiting_for_delimiter y m n h = ground arith
terminate_allowed false waiting_for_delimiter y m n h = ground arith
terminate_allowed delay term_ack_sent y m n h = ground (arith, append-nil n)
terminate_allowed delay term_req_sent1 y m n h = ground (arith, append-nil n)
terminate_allowed delay term_req_sent2 y m n h = ground (arith, append-nil n)

pub delimiter_allowed :
    (x : State) (y : Option State) (m n : List Effect)
    → allowed (some x) y m n ≡ true
    → is_readable x ≡ true
    → is_open y ≡ false
    → (reaches (after_delimiter x).1 y ≡ true)
      × (allowed (some (after_delimiter x).0) y m (n ++ (after_delimiter x).1) ≡ true)
      × (is_open (some (after_delimiter x).0) ≡ false)
      × (weight (some (after_delimiter x).0) + length (after_delimiter x).1 < weight (some x))
unfolding allowed
delimiter_allowed active y m n h r o = ground arith
delimiter_allowed delimiter_received y m n h r o = cc
delimiter_allowed waiting_for_delimiter y m n h r o = ground arith
delimiter_allowed term_ack_sent y m n h r o = cc
delimiter_allowed term_req_sent1 y m n h r o = cc
delimiter_allowed term_req_sent2 y m n h r o = cc

pub term_allowed :
    (delay : Bool) (x : State) (y : Option State) (m n : List Effect)
    → allowed (some x) y (pipe_term ∷ m) n ≡ true
    → (takes_term x ≡ true)
      × (reaches (after_term delay x).1 y ≡ true)
      × (allowed (some (after_term delay x).0) y m (n ++ (after_term delay x).1) ≡ true)
      × (is_open (some (after_term delay x).0) ≡ false)
      × (weight (some (after_term delay x).0) + length (after_term delay x).1 ≤ weight (some x))
unfolding allowed
term_allowed true active y m n h = ground arith
term_allowed false active y m n h = ground arith
term_allowed true delimiter_received y m n h = ground arith
term_allowed false delimiter_received y m n h = ground arith
term_allowed delay waiting_for_delimiter y m n h = ground arith
term_allowed delay term_ack_sent y m n h = ground arith
term_allowed true term_req_sent1 y m n h = ground arith
term_allowed false term_req_sent1 y m n h = ground arith
term_allowed delay term_req_sent2 y m n h = ground arith

pub ack_allowed :
    (x : State) (y : Option State) (m n : List Effect)
    → allowed (some x) y (pipe_term_ack ∷ m) n ≡ true
    → (takes_ack x ≡ true)
      × (reaches (after_ack x) y ≡ true)
      × (allowed none y m (n ++ after_ack x) ≡ true)
      × (length (after_ack x) ≤ weight (some x))
unfolding allowed
ack_allowed active y m n h = ground arith
ack_allowed delimiter_received y m n h = ground arith
ack_allowed waiting_for_delimiter y m n h = ground arith
ack_allowed term_ack_sent y m n h = ground arith
ack_allowed term_req_sent1 y m n h = ground arith
ack_allowed term_req_sent2 y m n h = ground arith

pub allowed_sym :
    (x y : Option State) (m n : List Effect) → allowed x y m n ≡ true → allowed y x n m ≡ true
unfolding allowed
allowed_sym none y m n h = ground arith
allowed_sym (some active) y m n h = ground arith
allowed_sym (some delimiter_received) y m n h = ground arith
allowed_sym (some waiting_for_delimiter) y m n h = ground arith
allowed_sym (some term_ack_sent) y m n h = ground arith
allowed_sym (some term_req_sent1) y m n h = ground arith
allowed_sym (some term_req_sent2) y m n h = ground arith

abbrev pub is_command : Effect → Bool
is_command Effect.pipe_term = true
is_command Effect.pipe_term_ack = true
is_command _ = false

pub inbox_command :
    (x : State) (y : Option State) (c : Effect) (m n : List Effect)
    → allowed (some x) y (c ∷ m) n ≡ true
    → is_command c ≡ true
unfolding allowed
inbox_command active y c m n h = ground arith
inbox_command delimiter_received y c m n h = ground arith
inbox_command waiting_for_delimiter y c m n h = ground arith
inbox_command term_ack_sent y c m n h = ground arith
inbox_command term_req_sent1 y c m n h = ground arith
inbox_command term_req_sent2 y c m n h = ground arith

abbrev pub alive : Option State → Bool
alive none = false
alive (some x) = true

abbrev pub readable : Option State → Bool
readable none = false
readable (some x) = is_readable x

abbrev pub nonempty : List Effect → Bool
nonempty [] = false
nonempty (c ∷ m) = true

-- Whether an end still has its outbound queue: it has not been deleted and has not acknowledged.
abbrev pub keeps_queue : Option State → Bool
keeps_queue none = false
keeps_queue (some term_ack_sent) = false
keeps_queue (some term_req_sent2) = false
keeps_queue (some x) = true

abbrev pub has_term : List Effect → Bool
has_term [] = false
has_term (pipe_term ∷ m) = true
has_term (c ∷ m) = has_term m

-- Whether the other end may still have to handle a command that an end sent while it was active, by the
-- state of the end and what waits at the other: commands are handled in the order sent.
abbrev pub unhandled : Option State → List Effect → Bool
unhandled (some active) n = true
unhandled (some delimiter_received) n = true
unhandled (some waiting_for_delimiter) n = true
unhandled (some term_ack_sent) n = nonempty n
unhandled x n = has_term n

pub keeps_queue-alive :
    (x y : Option State) (m n : List Effect)
    → allowed x y m n ≡ true
    → keeps_queue x ≡ true
    → alive y ≡ true
unfolding allowed
keeps_queue-alive none y m n h k = cc
keeps_queue-alive (some active) y m n h k = ground arith
keeps_queue-alive (some delimiter_received) y m n h k = ground arith
keeps_queue-alive (some waiting_for_delimiter) y m n h k = ground arith
keeps_queue-alive (some term_ack_sent) y m n h k = cc
keeps_queue-alive (some term_req_sent1) y m n h k = ground arith
keeps_queue-alive (some term_req_sent2) y m n h k = cc

pub unhandled-keeps_queue :
    (x y : Option State) (m n : List Effect)
    → allowed x y m n ≡ true
    → unhandled x n ≡ true
    → keeps_queue y ≡ true
unfolding allowed
unhandled-keeps_queue none y m n h k = ground arith
unhandled-keeps_queue (some active) y m n h k = ground arith
unhandled-keeps_queue (some delimiter_received) y m n h k = ground arith
unhandled-keeps_queue (some waiting_for_delimiter) y m n h k = ground arith
unhandled-keeps_queue (some term_ack_sent) y m n h k = ground arith
unhandled-keeps_queue (some term_req_sent1) y m n h k = ground arith
unhandled-keeps_queue (some term_req_sent2) y m n h k = ground arith
