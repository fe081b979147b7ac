-- ===== src/Codec/Ws/Encoder.antt =====
-- src/ws_encoder.cpp: the header of a WebSocket frame, and the body as it is sent.
use Prim.Native.Nat.{bit_xor}
use zmq_cn_comment.Base.{
  ℕ, ◌+◌, ◌/◌, ◌%◌, ◌^◌, Bool, not, ◌||◌, List, [], ◌∷◌, ◌++◌, length, get_or, leb, if◌then◌else◌,
}
use zmq_cn_comment.Message.{
  Msg, has_more, is_command, is_subscribe, is_cancel, is_ping, is_pong, is_close_cmd,
}
use zmq_cn_comment.Wire.{put_uint32, put_uint64}
use zmq_cn_comment.Codec.V2.{flag_if, mark}
use zmq_cn_comment.Codec.Ws.{
  opcode_binary, opcode_close, opcode_ping, opcode_pong, ws_more, ws_command, apply_mask,
}

-- The opcode of a message.
unfoldable pub opcode_of : Msg → ℕ
opcode_of m =
    if is_ping m
    then opcode_ping
    else if is_pong m
    then opcode_pong
    else if is_close_cmd m
    then opcode_close
    else opcode_binary

-- `_is_binary`.
unfoldable pub is_binary : Msg → Bool
is_binary m = not (is_ping m || is_pong m || is_close_cmd m)

-- The mask bit and the size: one byte up to 125, three up to 0xFFFF, otherwise nine.
unfoldable pub size_bytes : Bool → ℕ → List ℕ
size_bytes must_mask n =
    if leb n 125
    then (flag_if must_mask 128 + n) ∷ []
    else if leb n 0xFFFF
    then (flag_if must_mask 128 + 126) ∷ n / 2 ^ 8 % 256 ∷ n % 256 ∷ []
    else (flag_if must_mask 128 + 127) ∷ put_uint64 n

-- A byte of the header that is masked like the body.
abbrev pub masked_byte : Bool → List ℕ → ℕ → ℕ → ℕ
masked_byte must_mask mask i b = if must_mask then bit_xor b (get_or mask i 0) else b

-- The size on the wire, with the flag byte and the byte of a subscription or cancellation.
unfoldable pub wire_size : Msg → ℕ
wire_size m = length m.body + flag_if (is_binary m) 1 + flag_if (is_subscribe m || is_cancel m) 1

unfoldable pub flag_byte : Msg → ℕ
flag_byte m = flag_if (has_more m) ws_more + flag_if (is_command m) ws_command

-- The flag byte, masked with the first byte of the mask.
unfoldable pub flag_bytes : Bool → List ℕ → Msg → List ℕ
flag_bytes must_mask mask m =
    if is_binary m then masked_byte must_mask mask 0 (flag_byte m) ∷ [] else []

-- The byte that marks a subscription or a cancellation, masked with the next one.
unfoldable pub mark_bytes : Bool → List ℕ → Msg → List ℕ
mark_bytes must_mask mask m =
    let i = flag_if (is_binary m) 1 in
    if is_subscribe m
    then masked_byte must_mask mask i 1 ∷ []
    else if is_cancel m
    then masked_byte must_mask mask i 0 ∷ []
    else []

-- `message_ready`: the header, for the 32 bits that `generate_random` returns.
unfoldable pub header : Bool → ℕ → Msg → List ℕ
header must_mask random m =
    let mask = put_uint32 random in
    (128 + opcode_of m)
    ∷ (size_bytes must_mask (wire_size m)
        ++ ((if must_mask then mask else [])
            ++ (flag_bytes must_mask mask m ++ mark_bytes must_mask mask m)))

-- `size_ready`: the body that follows.
unfoldable pub body_bytes : Bool → ℕ → Msg → List ℕ
body_bytes must_mask random m =
    let i = flag_if (is_binary m) 1 + flag_if (is_subscribe m || is_cancel m) 1 in
    if must_mask then apply_mask (put_uint32 random) i m.body else m.body

-- The frame that the encoder writes.
unfoldable pub frame : Bool → ℕ → Msg → List ℕ
frame must_mask random m = header must_mask random m ++ body_bytes must_mask random m

-- What the peer gets as the body: a subscription or cancellation keeps its byte.
unfoldable pub payload : Msg → List ℕ
payload m = mark (is_subscribe m) (is_cancel m) ++ m.body
