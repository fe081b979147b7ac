-- ===== src/Codec/V2/Tests.antt =====
-- The theorems on the decoder loop, the encoder loop and ZMTP 2.0 frames on concrete messages.
use zmq_cn_comment.Base.{
  ◌+◌, ◌^◌, ◌≤◌, ◌<◌, ◌≡◌, ◌⊎◌, inl, refl, true, false, ◌||◌, [], ◌∷◌, ◌++◌, none, some, length,
  replicate, if◌then◌else◌, arith,
}
use zmq_cn_comment.Errno.{Errno}
use zmq_cn_comment.Message.{Msg, MsgType, is_subscribe, is_cancel, init}
use zmq_cn_comment.Codec.Storage.{init_size}
use zmq_cn_comment.Codec.Decoder.{ready, fail, decode, decode_direct}
use zmq_cn_comment.Codec.Decoder.Stream.{after, resume, decode-append, decode_direct-decode}
use zmq_cn_comment.Codec.Encoder.{Encoder, message_ready, size_ready, encode, load_msg}
use zmq_cn_comment.Codec.Encoder
use zmq_cn_comment.Codec.Encoder.Loop.{pending}
use zmq_cn_comment.Codec.Encoder.Batches.{encode_all, encode_all-load_msg}
use zmq_cn_comment.Codec.V2.{Config, start, step, machine, exceeds, new_message, header, payload}
use zmq_cn_comment.Codec.V2.Frame.{frame, wire_flags, received, decode-frame}
use zmq_cn_comment.Codec.V2.Refused.{decode-frame_255, decode-frame_refused}

-- A limit of ten bytes, no zero copy, and memory for all.
abbrev config : Config
config = record { max_msg_size = some 10; zero_copy = false; fits = λ n. false; malloc = λ n. true }

-- The first part of a message.
abbrev part : Msg
part = record { type = MsgType.vsm; flags = 1; body = 104 ∷ 105 ∷ 33 ∷ [] }

part_fits : length (payload part) < 2 ^ 64
unfolding payload is_subscribe is_cancel
part_fits = omega arith

part_allowed : exceeds config.max_msg_size (length (payload part)) ≡ false
unfolding payload is_subscribe is_cancel
part_allowed = refl

part_memory : new_message config (length (payload part)) ≡ some init
unfolding new_message init_size payload is_subscribe is_cancel
part_memory = refl

part_plain : (is_subscribe part || is_cancel part) ≡ false
unfolding is_subscribe is_cancel
part_plain = refl

decode-frame_example :
    decode (step config) start (frame part ++ (7 ∷ 8 ∷ []))
    ≡ (ready, received (wire_flags part) init (payload part), length (frame part))
decode-frame_example =
    decode-frame config part init (7 ∷ 8 ∷ []) (inl part_plain) part_fits part_allowed part_memory

-- A part of eleven bytes.
abbrev long_part : Msg
long_part = record { type = MsgType.vsm; flags = 0; body = replicate 11 0 }

long_part_plain : (is_subscribe long_part || is_cancel long_part) ≡ false
unfolding is_subscribe is_cancel
long_part_plain = refl

long_part_fits : length (payload long_part) < 2 ^ 64
unfolding payload is_subscribe is_cancel
long_part_fits = omega arith

long_part_above : exceeds config.max_msg_size (length (payload long_part)) ≡ true
unfolding payload is_subscribe is_cancel
long_part_above = refl

decode-frame_refused_example :
    let r = decode (step config) start (frame long_part ++ []) in
    (r.0
      ≡ fail (
          if exceeds config.max_msg_size (length (payload long_part))
          then Errno.emsgsize
          else Errno.enomem))
    × (r.2 + length (payload long_part) ≡ length (frame long_part))
decode-frame_refused_example =
    decode-frame_refused config long_part [] (inl long_part_plain) long_part_fits
      (inl long_part_above)

-- A subscription to a topic of 255 bytes.
abbrev subscription : Msg
subscription = record { type = MsgType.vsm; flags = 12; body = replicate 255 65 }

subscription_marked : (is_subscribe subscription || is_cancel subscription) ≡ true
unfolding is_subscribe is_cancel
subscription_marked = refl

decode-frame_255_example :
    decode (step config) start (frame subscription ++ [])
    ≡ (ready, received (wire_flags subscription) init [], 2)
decode-frame_255_example = decode-frame_255 config subscription [] subscription_marked refl

-- The flag byte and the size come first, the body with the bytes of the next frame.
decode-append_example :
    decode (step config) start ((1 ∷ 2 ∷ []) ++ (104 ∷ 105 ∷ 0 ∷ []))
    ≡ resume
        (machine config)
        (λ d u. after (machine config) u (decode (step config) d (104 ∷ 105 ∷ 0 ∷ [])))
        (decode (step config) start (1 ∷ 2 ∷ []))
decode-append_example =
    decode-append (machine config) start (1 ∷ 2 ∷ []) (104 ∷ 105 ∷ 0 ∷ []) (omega arith)

decode_direct-decode_example :
    decode_direct (step config) start (1 ∷ []) ≡ decode (step config) start (1 ∷ [])
decode_direct-decode_example =
    decode_direct-decode (machine config) start (1 ∷ []) (omega arith) (omega arith)

encode_all-load_msg_example :
    let r =
      encode_all header
        ((false, 2) ∷ (true, 1) ∷ (true, 8) ∷ [])
        (load_msg header part Encoder.start) in
    (r.0 ++ pending r.1 ≡ header part ++ part.body)
    × ((11 ≤ length r.0) ⊎ ((r.1.in_progress ≡ none) × (r.0 ≡ header part ++ part.body)))
encode_all-load_msg_example =
    encode_all-load_msg header ((false, 2) ∷ (true, 1) ∷ (true, 8) ∷ []) part Encoder.start refl
