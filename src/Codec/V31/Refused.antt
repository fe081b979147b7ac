-- ===== src/Codec/V31/Refused.antt =====
-- ZMTP 3.1 frames that the decoder reads amiss.
use zmq_cn_comment.Base.{
  ℕ, ◌^◌, ◌<◌, ◌≡◌, ap, ◌∙◌, false, List, [], ◌∷◌, ◌++◌, length, drop, ltb_ge, lt→ltb, arith,
}
use zmq_cn_comment.Message.{Msg, has_more, init}
use zmq_cn_comment.Wire.{put_uint64, put_uint64_small}
use zmq_cn_comment.Codec.Decoder.{ready, decode}
use zmq_cn_comment.Codec.Decoder.Stream.{feed_all, decode-feed_all}
use zmq_cn_comment.Codec.V2.{Config, start, step, machine, size_bytes}
use zmq_cn_comment.Codec.V2.Frame.{received, feed_frame}
use zmq_cn_comment.Codec.V2.Refused.{new_message_zero, exceeds_zero}
use zmq_cn_comment.Codec.V31.{is_wire_command, payload}
use zmq_cn_comment.Codec.V31.Frame.{frame_v31, wire_flags_v31, flag_byte, frame_split}

-- The first byte of a size of eight bytes.
size_bytes_long : (n : ℕ) → 255 < n → n < 2 ^ 56 → size_bytes n ≡ 0 ∷ drop 1 (put_uint64 n)
size_bytes_long n h lt = rw (lt→ltb 255 n h) (put_uint64_small n lt)

-- Where the body has at most 255 bytes and the payload more, as for a subscription to a topic of 246
-- to 255 bytes, the size (below 2 ^ 56) takes eight bytes but the large flag is not set. The decoder
-- then takes the first byte of the size, 0, for the whole of it, and delivers an empty message after
-- two bytes, whatever the configuration.
pub decode-frame_v31_amiss :
    (c : Config) (m : Msg) (rest : List ℕ)
    → length m.body < 256
    → 255 < length (payload m)
    → length (payload m) < 2 ^ 56
    → decode (step c) start (frame_v31 m ++ rest) ≡ (ready, received (wire_flags_v31 m) init [], 2)
decode-frame_v31_amiss c m rest short long lt =
    decode-feed_all (machine c) start (frame_v31 m ++ rest) (omega arith)
    ∙ ap (λ t. feed_all (machine c) start t 0) (frame_split m rest)
    ∙ ap (λ b. feed_all (machine c) start (flag_byte b m ∷ (size_bytes n ++ (payload m ++ rest))) 0)
        (ltb_ge 255 (length m.body) (omega arith))
    ∙ ap (λ t. feed_all (machine c) start (flag_byte false m ∷ (t ++ (payload m ++ rest))) 0)
        (size_bytes_long n long lt)
    ∙ feed_frame c (has_more m) false (is_wire_command m) []
        (drop 1 (put_uint64 n) ++ (payload m ++ rest)) init (omega arith) (exceeds_zero c)
        (new_message_zero c)
  where
    n : ℕ
    n = length (payload m)
