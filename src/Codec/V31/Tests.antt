-- ===== src/Codec/V31/Tests.antt =====
-- The theorems on ZMTP 3.1 frames on concrete messages.
use zmq_cn_comment.Base.{
  ◌^◌, ◌<◌, ◌≡◌, refl, false, true, [], ◌∷◌, ◌++◌, some, length, ltb, replicate, arith,
}
use zmq_cn_comment.Message.{Msg, MsgType, is_subscribe, is_cancel, init}
use zmq_cn_comment.Codec.Storage.{init_size}
use zmq_cn_comment.Codec.Decoder.{ready, decode}
use zmq_cn_comment.Codec.V2.{Config, start, step, exceeds, new_message}
use zmq_cn_comment.Codec.V2.Frame.{received}
use zmq_cn_comment.Codec.V31.{payload}
use zmq_cn_comment.Codec.V31.Frame.{frame_v31, wire_flags_v31, decode-frame_v31}
use zmq_cn_comment.Codec.V31.Refused.{decode-frame_v31_amiss}

abbrev config : Config
config = record { max_msg_size = some 30; zero_copy = false; fits = λ n. false; malloc = λ n. true }

-- A subscription to a topic of three bytes.
abbrev subscription : Msg
subscription = record { type = MsgType.vsm; flags = 12; body = 65 ∷ 66 ∷ 67 ∷ [] }

subscription_agrees : ltb 255 (length subscription.body) ≡ ltb 255 (length (payload subscription))
unfolding payload is_subscribe is_cancel
subscription_agrees = refl

subscription_fits : length (payload subscription) < 2 ^ 64
unfolding payload is_subscribe is_cancel
subscription_fits = omega arith

subscription_allowed : exceeds config.max_msg_size (length (payload subscription)) ≡ false
unfolding payload is_subscribe is_cancel
subscription_allowed = refl

subscription_memory : new_message config (length (payload subscription)) ≡ some init
unfolding new_message init_size payload is_subscribe is_cancel
subscription_memory = refl

decode-frame_v31_example : decode (step config) start (frame_v31 subscription ++ (0 ∷ [])) ≡ (
  ready,
  received (wire_flags_v31 subscription) init (payload subscription),
  length (frame_v31 subscription),
)
decode-frame_v31_example =
    decode-frame_v31 config subscription init (0 ∷ []) subscription_agrees subscription_fits
      subscription_allowed subscription_memory

-- A subscription to a topic of 250 bytes.
abbrev long_topic : Msg
long_topic = record { type = MsgType.lmsg; flags = 12; body = replicate 250 65 }

long_topic_long : 255 < length (payload long_topic)
unfolding payload is_subscribe is_cancel
long_topic_long = omega arith

long_topic_fits : length (payload long_topic) < 2 ^ 56
unfolding payload is_subscribe is_cancel
long_topic_fits = omega arith

decode-frame_v31_amiss_example :
    decode (step config) start (frame_v31 long_topic ++ [])
    ≡ (ready, received (wire_flags_v31 long_topic) init [], 2)
decode-frame_v31_amiss_example =
    decode-frame_v31_amiss config long_topic [] (omega arith) long_topic_long long_topic_fits
