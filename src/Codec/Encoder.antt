-- ===== src/Codec/Encoder.antt =====
-- src/encoder.hpp, `encoder_base_t`: the loop that fills the buffers of the socket with the bytes of
-- a message. The encoders of ZMTP derived from it have the same two steps, `message_ready`, which lays
-- out a header, and `size_ready`, which goes on to the body; the layout is a parameter here.
pub mod Loop
pub mod Batches
use zmq_cn_comment.Base.{
  ℕ, zero, suc, ◌+◌, ◌-◌, Bool, true, false, ◌&&◌, min, List, [], ◌∷◌, ◌++◌, Option, none, some,
  length, take, drop, leb, ltb, ◌==◌, if◌then◌else◌,
}
use zmq_cn_comment.Message.{Msg}

-- The step `_next`.
pub data Phase : Type 0 where
  message_ready size_ready : Phase

-- `to_write` holds the bytes from `_write_pos` on, `_to_write` of them.
pub record Encoder : Type 0 where
  pub to_write : List ℕ
  pub next : Phase
  pub new_msg_flag : Bool
  pub in_progress : Option Msg

-- The constructor's state of v1_encoder_t and v2_encoder_t.
abbrev pub start : Encoder
start = record { to_write = []; next = message_ready; new_msg_flag = true; in_progress = none }

-- The body of `*in_progress ()`; no step runs without a message.
abbrev pub body_of : Option Msg → List ℕ
body_of none = []
body_of (some m) = m.body

-- Rounds of the loop: the rest of the header, the body, and the end of the message.
abbrev pub encode_fuel : ℕ
encode_fuel = 4

module _ (header : Msg → List ℕ) where
  abbrev pub header_of : Option Msg → List ℕ
  header_of none = []
  header_of (some m) = header m

  pub run_next : Encoder → Encoder
  run_next e = elim e.next [
    | message_ready ↦ record e {
      to_write = header_of e.in_progress;
      next = size_ready;
      new_msg_flag = false;
    }
    | size_ready ↦ record e {
      to_write = body_of e.in_progress;
      next = message_ready;
      new_msg_flag = true;
    }
  ]

  -- `load_msg`; the caller asserts that no message is in progress.
  pub load_msg : Msg → Encoder → Encoder
  unfolding run_next
  load_msg m e = run_next (record e { in_progress = some m })

  -- memcpy (buffer + pos, write_pos, to_copy)
  abbrev pub copy_out : ℕ → List ℕ → Encoder → List ℕ × Encoder
  copy_out size out e = (
    out ++ take (size - length out) e.to_write,
    record e { to_write = drop (size - length out) e.to_write },
  )

  -- The step runs once all its bytes are written.
  pub refill : Encoder → Encoder
  unfolding run_next
  refill e = if length e.to_write == 0 then run_next e else e

  -- while (pos < buffersize) { ... }. `own` says that no buffer was supplied, so that data which
  -- fill the whole buffer are handed out where they are.
  pub encode_loop : ℕ → Bool → ℕ → List ℕ → Encoder → List ℕ × Encoder
  encode_loop zero own size out e = (out, e)
  encode_loop (suc fuel) own size out e =
      let e1 = refill e in
      let next = copy_out size out e1 in
      let rest = encode_loop fuel own size next.0 next.1 in
      if leb size (length out)
      then (out, e)
      else if (length e.to_write == 0) && e.new_msg_flag
      then (out, record e { in_progress = none })
      else if (length out == 0) && own && leb size (length e1.to_write)
      then (e1.to_write, record e1 { to_write = [] })
      else rest

  -- if (in_progress () == NULL) return 0;
  abbrev pub encode_when : Option Msg → Bool → ℕ → Encoder → List ℕ × Encoder
  encode_when none own size e = ([], e)
  encode_when (some m) own size e = encode_loop encode_fuel own size [] e

  pub encode : Bool → ℕ → Encoder → List ℕ × Encoder
  encode own size e = encode_when e.in_progress own size e
