-- ===== src/Codec/Ws/Frame.antt =====
-- WebSocket frames, written by the encoder and read by the decoder.
use zmq_cn_comment.Base.{
  ℕ, ◌+◌, ◌^◌, ◌<◌, ◌≡◌, refl, ap, ap₂, ◌∙◌, Bool, true, false, List, [], ◌∷◌, ◌++◌, some, length,
  if◌then◌else◌, arith, IsBytes, byte,
}
use zmq_cn_comment.Message.{Msg, has_more, is_command, is_subscribe, is_cancel}
use zmq_cn_comment.Wire.{put_uint32, length-put_uint32}
use zmq_cn_comment.Codec.Decoder.{ready, Decoder, Decoded, next_step, decode}
use zmq_cn_comment.Codec.Decoder.Stream.{feed_all, decode-feed_all}
use zmq_cn_comment.Codec.Decoder.Chunks.{go_on, feed_chunk, go_on_waiting}
use zmq_cn_comment.Codec.V2.{exceeds, new_message, flag_if, mark}
use zmq_cn_comment.Codec.Ws.{Next, Control, Config, sized, opcode_ready, step}
use zmq_cn_comment.Codec.Ws.Settle.{machine}
use zmq_cn_comment.Codec.Ws.Encoder.{opcode_of, is_binary, frame, payload}
use zmq_cn_comment.Codec.Ws.Mask.{put_uint32-IsBytes}
use zmq_cn_comment.Codec.Ws.Feed.{at_frame, at_size, received, step_opcode}
use zmq_cn_comment.Codec.Ws.Parts.{flags_of, feed_rest}
use zmq_cn_comment.Codec.Ws.Size.{feed_size}
use zmq_cn_comment.Codec.Ws.Layout.{
  control_flags, received_flags, sent, mask_part, flags_part, size_part, opcode_of-flags,
  opcode_of-binary, opcode_of_small, length-sent, flag_if_small, frame_split, length-frame,
  received_body-sent,
}

-- The decoder once it has delivered the message; `r` has the storage of the body.
abbrev pub delivered : Config → ℕ → Msg → Msg → Control → Decoder Control
delivered c random m r k =
    next_step
      (record k {
        next = opcode_ready;
        opcode = opcode_of m;
        size = length (payload m);
        mask = if c.must_mask then put_uint32 random else k.mask;
        msg_flags = received_flags m;
        in_progress = record r { flags = received_flags m; body = payload m };
      })
      1

payload-IsBytes : (m : Msg) → IsBytes m.body → IsBytes (payload m)
unfolding payload
payload-IsBytes m h = go (is_subscribe m) (is_cancel m)
  where
    go : (sub cancel : Bool) → IsBytes (mark sub cancel ++ m.body)
    go true cancel = byte (omega arith) h
    go false true = byte (omega arith) h
    go false false = h

-- A ws_decoder_t that waits for a frame reads what ws_encoder_t wrote for a message, all its bytes
-- and no more, if both mask or neither does, whatever the mask: the payload as the body, and the
-- more and command flags; a ping, a pong or a close command arrives with the flags of a command of
-- its kind. The body holds bytes, its payload and the flag byte fit 64 bits, the payload fits the
-- limit, and there is memory for it; if it is masked, the index into the mask fits an int for all of it.
pub decode-frame_ws :
    (c : Config) (k : Control) (random : ℕ) (m r : Msg) (rest : List ℕ)
    → IsBytes m.body
    → length (payload m) + 1 < 2 ^ 64
    → (c.must_mask ≡ true → flag_if (is_binary m) 1 + length (payload m) < 2 ^ 31)
    → exceeds c.storage.max_msg_size (length (payload m)) ≡ false
    → new_message c.storage (length (payload m)) ≡ some r
    → decode (step c) (at_frame k) (frame c.must_mask random m ++ rest)
      ≡ (ready, delivered c random m r k, length (frame c.must_mask random m))
unfolding received_flags
decode-frame_ws c k random m r rest bytes lt few fits memory =
    decode-feed_all (machine c) (at_frame k) (frame c.must_mask random m ++ rest) (omega arith)
    ∙ ap (λ t. feed_all (machine c) (at_frame k) t 0) (frame_split c random m rest few)
    ∙ feed_chunk (machine c) (at_frame k) ((128 + opcode_of m) ∷ []) after_opcode 0 (omega arith)
        refl
    ∙ ap (λ p. go_on (machine c) p after_opcode 1)
        (step_opcode c k (opcode_of m) (if is_binary m then 0 else control_flags m)
          (opcode_of_small m) (opcode_of-flags m))
    ∙ go_on_waiting (machine c) (at_size k1) after_opcode 1 (omega arith)
    ∙ feed_size c k1 (length body + flag_if (is_binary m) 1) after_size result follows
        (omega (arith, flag_if_small (is_binary m), same_length)) 1
    ∙ ap₂
        (λ n b. final n b (
          1
          + length (size_part c random m)
          + length (mask_part c random m)
          + length (flags_part c random m)
          + length body))
        same_length
        (received_body-sent c random m c.must_mask k2 refl (opcode_of-binary m)
          (λ t. ap (λ b. if b then put_uint32 random else k.mask) t) (payload-IsBytes m bytes) few)
    ∙ ap (final (length (payload m)) (payload m))
        (omega (arith, same_length, length-frame c random m few))
  where
    body : List ℕ
    body = sent c.must_mask random m

    after_size : List ℕ
    after_size = mask_part c random m ++ (flags_part c random m ++ (body ++ rest))

    after_opcode : List ℕ
    after_opcode = size_part c random m ++ after_size

    k1 : Control
    k1 = record k { opcode = opcode_of m; msg_flags = if is_binary m then 0 else control_flags m }

    k2 : Control
    k2 = record k1 {
      mask = if c.must_mask then put_uint32 random else k.mask;
      msg_flags = flags_of (is_binary m) (control_flags m) (has_more m) (is_command m);
      size = length body;
    }

    result : ℕ → Decoded Control
    result u = (
      ready,
      received c r k2 body,
      u + length (mask_part c random m) + length (flags_part c random m) + length body,
    )

    same_length : length body ≡ length (payload m)
    same_length = length-sent c.must_mask random m few

    final : ℕ → List ℕ → ℕ → Decoded Control
    final n b u = (
      ready,
      next_step
          (record k2 {
            next = opcode_ready;
            size = n;
            in_progress = record r { flags = k2.msg_flags; body = b };
          })
          1,
      u,
    )

    follows :
        (next : Next) (size to_read : ℕ) (filled : List ℕ) (u : ℕ)
        → go_on
            (machine c)
            (sized c (length body + flag_if (is_binary m) 1) (record {
              ctl = record k1 { next = next; size = size };
              to_read = to_read;
              filled = filled;
            }))
            after_size
            u
          ≡ result u
    follows next size to_read filled u =
        feed_rest c r body rest (omega (arith, same_length))
          (ap (exceeds c.storage.max_msg_size) same_length ∙ fits)
          (ap (new_message c.storage) same_length ∙ memory) (is_binary m) c.must_mask
          (put_uint32 random) (has_more m) (is_command m) (control_flags m) _ u refl
          (length-put_uint32 random) (opcode_of-binary m) refl (put_uint32-IsBytes random)
