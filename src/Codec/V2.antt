-- ===== src/Codec/V2.antt =====
-- src/v2_decoder.cpp, v2_encoder.cpp and v2_protocol.hpp: the frames of ZMTP 2.0. A frame is a flag
-- byte, the size in one or eight bytes, and the body.
pub mod Frame
pub mod Refused
mod Tests
use zmq_cn_comment.Base.{
  ℕ, ◌+◌, ◌%◌, ◌^◌, ◌≤◌, ◌<◌, ◌≡◌, refl, Bool, true, false, not, ◌&&◌, ◌||◌, List, [], ◌∷◌, ◌++◌,
  Option, none, some, length, get_or, ltb, ◌==◌, if◌then◌else◌, arith,
}
use zmq_cn_comment.Errno.{Errno}
use zmq_cn_comment.Message.{
  Msg, more_flag, command_flag, has_flag, has_more, is_command, is_subscribe, is_cancel, init,
}
use zmq_cn_comment.Wire.{put_uint64, get_uint64}
use zmq_cn_comment.Codec.Storage.{init_size, init_shared}
use zmq_cn_comment.Codec.Decoder.{Rc, again, ready, fail, Decoder, Machine, next_step, settle}

pub data Next : Type 0 where
  flags_ready one_byte_size_ready eight_byte_size_ready message_ready : Next

pub record Control : Type 0 where
  pub next : Next
  pub msg_flags : ℕ
  pub in_progress : Msg

-- The flags on the wire.
abbrev pub wire_more : ℕ
wire_more = 1

abbrev pub wire_large : ℕ
wire_large = 2

abbrev pub wire_command : ℕ
wire_command = 4

-- A flag bit, if the condition holds.
abbrev pub flag_if : Bool → ℕ → ℕ
flag_if b mask = if b then mask else 0

-- `_tmpbuf[0]`.
abbrev pub tmpbuf0 : Decoder Control → ℕ
tmpbuf0 d = get_or d.filled 0 0

-- `_max_msg_size`, `none` for a negative one; `_zero_copy`; whether the rest of the buffer holds
-- the message; the memory.
pub record Config : Type 0 where
  pub max_msg_size : Option ℕ
  pub zero_copy : Bool
  pub fits : ℕ → Bool
  pub malloc : ℕ → Bool

abbrev pub exceeds : Option ℕ → ℕ → Bool
exceeds none n = false
exceeds (some limit) n = ltb limit n

-- The constructor's state.
abbrev pub start : Decoder Control
start = next_step (record { next = flags_ready; msg_flags = 0; in_progress = init }) 1

-- The message that `size_ready` sets up, if there is memory for it.
unfoldable pub new_message : Config → ℕ → Option Msg
unfolding init_size init_shared
new_message c n =
    if not c.zero_copy || not (c.fits n) then init_size c.malloc n else init_shared c.malloc n

pub flags_ready_step : Decoder Control → Rc × Decoder Control
flags_ready_step d =
    let flags =
      flag_if (has_flag (tmpbuf0 d) wire_more) more_flag
      + flag_if (has_flag (tmpbuf0 d) wire_command) command_flag in
    let ctl = record (d.ctl) { msg_flags = flags } in
    (
      again,
      (if has_flag (tmpbuf0 d) wire_large
          then next_step (record ctl { next = eight_byte_size_ready }) 8
          else next_step (record ctl { next = one_byte_size_ready }) 1),
    )

pub size_ready : Config → ℕ → Decoder Control → Rc × Decoder Control
size_ready c n d =
    if exceeds c.max_msg_size n
    then (fail Errno.emsgsize, d)
    else if not (n == n % 2 ^ 64)
    then (fail Errno.emsgsize, d)
    else elim (new_message c n) [
      | none ↦ (fail Errno.enomem, record d { ctl = record (d.ctl) { in_progress = init } })
      | some m ↦ (
        again,
        next_step
            (record (d.ctl) {
              next = message_ready;
              in_progress = record m { flags = d.ctl.msg_flags };
            })
            n,
      )
    ]

pub message_ready_step : Decoder Control → Rc × Decoder Control
message_ready_step d = (
  ready,
  next_step
      (record (d.ctl) {
        next = flags_ready;
        in_progress = record (d.ctl.in_progress) { body = d.filled };
      })
      1,
)

pub step : Config → Decoder Control → Rc × Decoder Control
unfolding flags_ready_step size_ready message_ready_step
step c d = elim d.ctl.next [
  | flags_ready ↦ flags_ready_step d
  | one_byte_size_ready ↦ size_ready c (tmpbuf0 d) d
  | eight_byte_size_ready ↦ size_ready c (get_uint64 d.filled) d
  | message_ready ↦ message_ready_step d
]

pub step_settles :
    (c : Config) (d : Decoder Control)
    → (settle (step c) 2 d).0 ≡ again
    → 0 < (settle (step c) 2 d).1.to_read
unfolding settle step
step_settles c d h = ground arith

abbrev pub machine : Config → Machine Control
machine c = record { step = step c; settles = step_settles c }

-- One byte for a size up to UCHAR_MAX, otherwise eight.
abbrev pub size_bytes : ℕ → List ℕ
size_bytes n = if ltb 255 n then put_uint64 n else n ∷ []

-- The byte that marks a subscription or a cancellation.
abbrev pub mark : Bool → Bool → List ℕ
mark sub cancel = if sub then 1 ∷ [] else if cancel then 0 ∷ [] else []

-- `message_ready` of the encoder: the header.
pub header : Msg → List ℕ
header m =
    let size = length m.body + flag_if (is_subscribe m || is_cancel m) 1 in
    let flags =
      flag_if (has_more m) wire_more
      + flag_if (ltb 255 (length m.body)) wire_large
      + flag_if (is_command m) wire_command in
    flags ∷ (size_bytes size ++ mark (is_subscribe m) (is_cancel m))

-- What follows the size on the wire: the body, after the byte of a subscription or cancellation.
pub payload : Msg → List ℕ
payload m = mark (is_subscribe m) (is_cancel m) ++ m.body
