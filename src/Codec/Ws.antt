-- ===== src/Codec/Ws.antt =====
-- src/ws_decoder.cpp, ws_encoder.cpp and ws_protocol.hpp: the frames of the WebSocket transport. A
-- frame is a byte with the opcode, the size with the mask bit in one, three or nine bytes, the mask,
-- the flag byte of a binary frame, and the body.
pub mod Encoder
pub mod Feed
pub mod Parts
pub mod Frame
pub mod Layout
pub mod Refused
pub mod Mask
pub mod Settle
pub mod Size
mod Tests
pub mod Xor
use Prim.Native.Nat.{bit_or, bit_xor}
use zmq_cn_comment.Base.{
  ℕ, zero, suc, ◌+◌, ◌-◌, ◌*◌, ◌%◌, ◌^◌, ◌<◌, ◌≡◌, Bool, true, false, not, same, ◌||◌, List, [],
  ◌∷◌, ◌++◌, Option, none, some, length, get_or, ltb, leb, ◌==◌, if◌then◌else◌, arith,
}
use zmq_cn_comment.Errno.{Errno}
use zmq_cn_comment.Message.{
  Msg, more_flag, command_flag, has_flag, has_more, is_command, is_subscribe, is_cancel, is_ping,
  is_pong, is_close_cmd, init,
}
use zmq_cn_comment.Wire.{put_uint32, put_uint64, get_uint64}
use zmq_cn_comment.Codec.Decoder.{
  Rc, again, ready, fail, Decoder, Machine, next_step, settle, then_settle,
}
use zmq_cn_comment.Codec.V2.{exceeds, new_message, flag_if, mark}
use zmq_cn_comment.Codec.V2

pub data Next : Type 0 where
  opcode_ready size_first_byte_ready short_size_ready : Next
  long_size_ready mask_ready flags_ready message_ready : Next

-- `opcode_t`, the opcodes that are handled.
abbrev pub opcode_binary : ℕ
opcode_binary = 2

abbrev pub opcode_close : ℕ
opcode_close = 8

abbrev pub opcode_ping : ℕ
opcode_ping = 9

abbrev pub opcode_pong : ℕ
opcode_pong = 10

-- The flags on the wire.
abbrev pub ws_more : ℕ
ws_more = 1

abbrev pub ws_command : ℕ
ws_command = 2

pub record Control : Type 0 where
  pub next : Next
  pub opcode : ℕ
  pub size : ℕ
  pub mask : List ℕ
  pub msg_flags : ℕ
  pub in_progress : Msg

-- `_max_msg_size`, `_zero_copy` and the memory, as for ZMTP 2.0; `_must_mask`.
pub record Config : Type 0 where
  pub storage : V2.Config
  pub must_mask : Bool

-- `_tmpbuf[i]`.
abbrev pub tmpbuf : Decoder Control → ℕ → ℕ
tmpbuf d i = get_or d.filled i 0

-- The constructor's state; `_opcode` and `_mask` are set before they are read.
abbrev pub start : Decoder Control
start =
    next_step
      (record {
        next = opcode_ready;
        opcode = 0;
        size = 0;
        mask = [];
        msg_flags = 0;
        in_progress = init;
      })
      1

-- dest[i] = src[i] ^ mask[mask_index++ % 4]; mask_index is an int, and where incrementing it would overflow
-- the source's behaviour is undefined: nothing follows here, and the theorems on masked frames say nothing.
unfoldable pub apply_mask : List ℕ → ℕ → List ℕ → List ℕ
apply_mask mask i [] = []
apply_mask mask i (b ∷ bs) =
    let rest = apply_mask mask (i + 1) bs in
    if ltb (i + 1) (2 ^ 31) then bit_xor b (get_or mask (i % 4) 0) ∷ rest else []

-- The flags of a message with this opcode, `none` for an opcode that is not handled.
abbrev pub opcode_flags : ℕ → Option ℕ
opcode_flags opcode =
    if opcode == opcode_binary
    then some 0
    else if opcode == opcode_close
    then some (bit_or command_flag 20)
    else if opcode == opcode_ping
    then some (bit_or 4 command_flag)
    else if opcode == opcode_pong
    then some (bit_or 8 command_flag)
    else none

-- The opcode and the flags that go with it. The members are set before an unknown opcode is refused.
abbrev pub with_opcode : ℕ → Option ℕ → Decoder Control → Rc × Decoder Control
with_opcode opcode none d =
    (fail Errno.unchanged, record d { ctl = record (d.ctl) { opcode = opcode; msg_flags = 0 } })
with_opcode opcode (some flags) d = (
  again,
  next_step (record (d.ctl) { next = size_first_byte_ready; opcode = opcode; msg_flags = flags }) 1,
)

unfoldable pub opcode_ready_step : Decoder Control → Rc × Decoder Control
opcode_ready_step d =
    if not (has_flag (tmpbuf d 0) 128)
    then (fail Errno.unchanged, d)
    else with_opcode (tmpbuf d 0 % 16) (opcode_flags (tmpbuf d 0 % 16)) d

-- The message that `size_ready` sets up, if there is memory for it.
abbrev pub with_message : Option Msg → Decoder Control → Rc × Decoder Control
with_message none d = (fail Errno.enomem, record d { ctl = record (d.ctl) { in_progress = init } })
with_message (some m) d = (
  again,
  next_step
      (record (d.ctl) { next = message_ready; in_progress = record m { flags = d.ctl.msg_flags } })
      d.ctl.size,
)

unfoldable pub size_ready : Config → Decoder Control → Rc × Decoder Control
size_ready c d =
    if exceeds c.storage.max_msg_size d.ctl.size
    then (fail Errno.emsgsize, d)
    else if not (d.ctl.size == d.ctl.size % 2 ^ 64)
    then (fail Errno.emsgsize, d)
    else with_message (new_message c.storage d.ctl.size) d

-- What all steps that have read the size end with, but for the mask: the flag byte of a binary
-- frame, or the message.
unfoldable pub unmasked : Config → Decoder Control → Rc × Decoder Control
unmasked c d =
    if d.ctl.opcode == opcode_binary
    then if d.ctl.size == 0
      then (fail Errno.unchanged, d)
      else (again, next_step (record (d.ctl) { next = flags_ready }) 1)
    else size_ready c d

-- The size is stored; the mask comes next, if there is one.
unfoldable pub sized : Config → ℕ → Decoder Control → Rc × Decoder Control
sized c n d =
    let d1 = record d { ctl = record (d.ctl) { size = n } } in
    if c.must_mask
    then (again, next_step (record (d1.ctl) { next = mask_ready }) 4)
    else unmasked c d1

unfoldable pub size_first_byte_step : Config → Decoder Control → Rc × Decoder Control
size_first_byte_step c d =
    let is_masked = has_flag (tmpbuf d 0) 128 in
    let n = tmpbuf d 0 % 128 in
    let ctl = record (d.ctl) { size = n } in
    if not (same is_masked c.must_mask)
    then (fail Errno.unchanged, d)
    else if ltb n 126
    then sized c n d
    else if n == 126
    then (again, next_step (record ctl { next = short_size_ready }) 2)
    else (again, next_step (record ctl { next = long_size_ready }) 8)

unfoldable pub short_size_step : Config → Decoder Control → Rc × Decoder Control
short_size_step c d = sized c (tmpbuf d 0 * 256 + tmpbuf d 1) d

unfoldable pub long_size_step : Config → Decoder Control → Rc × Decoder Control
long_size_step c d = sized c (get_uint64 d.filled) d

unfoldable pub mask_ready_step : Config → Decoder Control → Rc × Decoder Control
mask_ready_step c d = unmasked c (record d { ctl = record (d.ctl) { mask = d.filled } })

unfoldable pub flags_ready_step : Config → Decoder Control → Rc × Decoder Control
flags_ready_step c d =
    let flags = if c.must_mask then bit_xor (tmpbuf d 0) (get_or d.ctl.mask 0 0) else tmpbuf d 0 in
    let with_more = bit_or d.ctl.msg_flags (flag_if (has_flag flags ws_more) more_flag) in
    let with_command = bit_or with_more (flag_if (has_flag flags ws_command) command_flag) in
    let ctl = record (d.ctl) {
      msg_flags = with_command;
      size = (d.ctl.size + 2 ^ 64 - 1) % 2 ^ 64;
    } in
    size_ready c (record d { ctl = ctl })

unfoldable pub message_ready_step : Config → Decoder Control → Rc × Decoder Control
message_ready_step c d =
    let index = flag_if (d.ctl.opcode == opcode_binary) 1 in
    let body = if c.must_mask then apply_mask d.ctl.mask index d.filled else d.filled in
    (
      ready,
      next_step
          (record (d.ctl) {
            next = opcode_ready;
            in_progress = record (d.ctl.in_progress) { body = body };
          })
          1,
    )

abbrev pub step_at : Next → Config → Decoder Control → Rc × Decoder Control
step_at opcode_ready c d = opcode_ready_step d
step_at size_first_byte_ready c d = size_first_byte_step c d
step_at short_size_ready c d = short_size_step c d
step_at long_size_ready c d = long_size_step c d
step_at mask_ready c d = mask_ready_step c d
step_at flags_ready c d = flags_ready_step c d
step_at message_ready c d = message_ready_step c d

-- The step `_next`.
unfoldable pub step : Config → Decoder Control → Rc × Decoder Control
step c d = step_at d.ctl.next c d
