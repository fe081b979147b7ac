-- ===== src/Codec/V1.antt =====
-- src/v1_decoder.cpp and v1_encoder.cpp: the frames of ZMTP 1.0. A frame is the size of what
-- follows, in one byte or in nine, a flag byte, and the body.
pub mod Frame
mod Tests
use zmq_cn_comment.Base.{
  ℕ, ◌+◌, ◌-◌, ◌%◌, ◌^◌, ◌<◌, ◌≡◌, Bool, true, false, ◌||◌, List, [], ◌∷◌, ◌++◌, Option, none, some,
  length, get_or, ltb, ◌==◌, if◌then◌else◌, arith,
}
use zmq_cn_comment.Errno.{Errno}
use zmq_cn_comment.Message.{Msg, is_subscribe, is_cancel, init}
use zmq_cn_comment.Wire.{put_uint64, get_uint64}
use zmq_cn_comment.Codec.Storage.{init_size}
use zmq_cn_comment.Codec.Decoder.{Rc, again, ready, fail, Decoder, Machine, next_step, settle}
use zmq_cn_comment.Codec.V2.{exceeds, flag_if, mark}

pub data Next : Type 0 where
  one_byte_size_ready eight_byte_size_ready flags_ready message_ready : Next

-- `size` is `_in_progress.size ()`; the body itself is filled in when it has been read.
pub record Control : Type 0 where
  pub next : Next
  pub size : ℕ
  pub in_progress : Msg

-- `_max_msg_size`, `none` for a negative one, and the memory.
pub record Config : Type 0 where
  pub max_msg_size : Option ℕ
  pub malloc : ℕ → Bool

abbrev pub tmpbuf0 : Decoder Control → ℕ
tmpbuf0 d = get_or d.filled 0 0

-- The constructor's state.
abbrev pub start : Decoder Control
start = next_step (record { next = one_byte_size_ready; size = 0; in_progress = init }) 1

-- _in_progress.close (); _in_progress.init_size (n)
pub allocate : Config → ℕ → Decoder Control → Rc × Decoder Control
allocate c n d = elim (init_size c.malloc n) [
  | none ↦ (fail Errno.enomem, record d { ctl = record (d.ctl) { size = 0; in_progress = init } })
  | some m ↦ (again, next_step (record { next = flags_ready; size = n; in_progress = m }) 1)
]

-- The size counts the flag byte.
pub sized : Config → ℕ → Decoder Control → Rc × Decoder Control
unfolding allocate
sized c n d =
    if n == 0
    then (fail Errno.eproto, d)
    else if exceeds c.max_msg_size (n - 1)
    then (fail Errno.emsgsize, d)
    else allocate c (n - 1) d

pub one_byte_step : Config → Decoder Control → Rc × Decoder Control
unfolding sized
one_byte_step c d =
    if tmpbuf0 d == 255
    then (again, next_step (record (d.ctl) { next = eight_byte_size_ready }) 8)
    else sized c (tmpbuf0 d) d

-- `set_flags (_tmpbuf[0] & more)` on a message without flags.
pub flags_step : Decoder Control → Rc × Decoder Control
flags_step d = (
  again,
  next_step
      (record (d.ctl) {
        next = message_ready;
        in_progress = record (d.ctl.in_progress) { flags = tmpbuf0 d % 2 };
      })
      d.ctl.size,
)

pub message_step : Decoder Control → Rc × Decoder Control
message_step d = (
  ready,
  next_step
      (record (d.ctl) {
        next = one_byte_size_ready;
        in_progress = record (d.ctl.in_progress) { body = d.filled };
      })
      1,
)

pub step : Config → Decoder Control → Rc × Decoder Control
unfolding one_byte_step sized flags_step message_step
step c d = elim d.ctl.next [
  | one_byte_size_ready ↦ one_byte_step c d
  | eight_byte_size_ready ↦ sized c (get_uint64 d.filled) d
  | flags_ready ↦ flags_step d
  | message_ready ↦ message_step d
]

pub step_settles :
    (c : Config) (d : Decoder Control)
    → (settle (step c) 2 d).0 ≡ again
    → 0 < (settle (step c) 2 d).1.to_read
unfolding settle step
step_settles c d h = ground arith

abbrev pub machine : Config → Machine Control
machine c = record { step = step c; settles = step_settles c }

-- The size, in one byte below UCHAR_MAX.
abbrev pub size_bytes : ℕ → List ℕ
size_bytes n = if ltb n 255 then n ∷ [] else 255 ∷ put_uint64 n

-- `message_ready` of the encoder: the header.
pub header : Msg → List ℕ
header m =
    let size = length m.body + 1 + flag_if (is_subscribe m || is_cancel m) 1 in
    (size_bytes size ++ ((m.flags % 2) ∷ [])) ++ mark (is_subscribe m) (is_cancel m)

-- What follows the flags on the wire.
pub payload : Msg → List ℕ
payload m = mark (is_subscribe m) (is_cancel m) ++ m.body
