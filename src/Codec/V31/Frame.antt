-- ===== src/Codec/V31/Frame.antt =====
-- ZMTP 3.1 frames, read by the decoder of ZMTP 2.0.
use zmq_cn_comment.Base.{
  ℕ, ◌+◌, ◌^◌, ◌<◌, ◌≡◌, refl, sym, ap, ◌∙◌, Bool, true, false, List, [], ◌∷◌, ◌++◌, some, length,
  ltb, append_assoc, append-nil, length-append, arith,
}
use zmq_cn_comment.Message.{Msg, more_flag, command_flag, has_more, is_subscribe, is_cancel}
use zmq_cn_comment.Codec.Decoder.{ready, decode}
use zmq_cn_comment.Codec.Decoder.Stream.{feed_all, decode-feed_all}
use zmq_cn_comment.Codec.V2.{
  Config, flag_if, exceeds, start, new_message, step, machine, wire_large, wire_more, wire_command,
  size_bytes,
}
use zmq_cn_comment.Codec.V2.Frame.{received, feed_frame}
use zmq_cn_comment.Codec.V31.{name_size, name, is_wire_command, wire_size, header, payload}

-- The frame that the encoder writes.
abbrev pub frame_v31 : Msg → List ℕ
frame_v31 m = header m ++ m.body

-- The flags that the decoder delivers: a subscription or a cancellation arrives as a command.
abbrev pub wire_flags_v31 : Msg → ℕ
wire_flags_v31 m = flag_if (has_more m) more_flag + flag_if (is_wire_command m) command_flag

length-name : (sub cancel : Bool) → length (name sub cancel) ≡ name_size sub cancel
length-name true cancel = refl
length-name false true = refl
length-name false false = refl

pub length-payload : (m : Msg) → length (payload m) ≡ wire_size m
unfolding payload wire_size
length-payload m = omega (
  arith,
  length-append (name (is_subscribe m) (is_cancel m)) m.body,
  length-name (is_subscribe m) (is_cancel m),
)

abbrev pub flag_byte : Bool → Msg → ℕ
flag_byte large m =
    flag_if (has_more m) wire_more
    + flag_if large wire_large
    + flag_if (is_wire_command m) wire_command

-- The width of the size is that of the payload, the large flag that of the body.
pub frame_split :
    (m : Msg) (rest : List ℕ)
    → frame_v31 m ++ rest
      ≡ flag_byte (ltb 255 (length m.body)) m
        ∷ (size_bytes (length (payload m)) ++ (payload m ++ rest))
unfolding header payload
frame_split m rest =
    ap (λ t. flag_byte (ltb 255 (length m.body)) m ∷ t)
      (ap (λ t. t ++ rest)
          (append_assoc (size_bytes (wire_size m)) (name (is_subscribe m) (is_cancel m)) m.body)
        ∙ append_assoc (size_bytes (wire_size m)) (payload m) rest
        ∙ ap (λ n. size_bytes n ++ (payload m ++ rest)) (sym (length-payload m)))

-- A v2_decoder_t that waits for a frame reads what v3_1_encoder_t wrote for a message, all its bytes
-- and no more: the name of the command of a subscription or cancellation and the body, and the more
-- and command flags. Body and payload have both at most 255 bytes or both more, the payload fits 64
-- bits and the limit, and there is memory for it.
pub decode-frame_v31 :
    (c : Config) (m r : Msg) (rest : List ℕ)
    → ltb 255 (length m.body) ≡ ltb 255 (length (payload m))
    → length (payload m) < 2 ^ 64
    → exceeds c.max_msg_size (length (payload m)) ≡ false
    → new_message c (length (payload m)) ≡ some r
    → decode (step c) start (frame_v31 m ++ rest)
      ≡ (ready, received (wire_flags_v31 m) r (payload m), length (frame_v31 m))
decode-frame_v31 c m r rest agree lt fits memory =
    decode-feed_all (machine c) start (frame_v31 m ++ rest) (omega arith)
    ∙ ap (λ t. feed_all (machine c) start t 0) (frame_split m rest)
    ∙ ap (λ b. feed_all (machine c) start (flag_byte b m ∷ (size ++ (payload m ++ rest))) 0) agree
    ∙ feed_frame c (has_more m) (ltb 255 (length (payload m))) (is_wire_command m) (payload m) rest
        r lt fits memory
    ∙ ap (λ n. (ready, received (wire_flags_v31 m) r (payload m), n)) count
  where
    size : List ℕ
    size = size_bytes (length (payload m))

    count : 1 + length size + length (payload m) ≡ length (frame_v31 m)
    count = omega (
      arith,
      ap length (sym (append-nil (frame_v31 m)) ∙ frame_split m []),
      length-append size (payload m ++ []),
      ap length (append-nil (payload m)),
    )
