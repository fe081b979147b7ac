-- ===== src/Codec/V1/Tests.antt =====
-- The theorem on ZMTP 1.0 frames on a concrete message.
use zmq_cn_comment.Base.{
  ◌+◌, ◌%◌, ◌^◌, ◌<◌, ◌≡◌, refl, true, false, [], ◌∷◌, ◌++◌, some, length, arith,
}
use zmq_cn_comment.Message.{Msg, MsgType, is_subscribe, is_cancel, init}
use zmq_cn_comment.Codec.Storage.{init_size}
use zmq_cn_comment.Codec.Decoder.{ready, decode}
use zmq_cn_comment.Codec.V2.{exceeds}
use zmq_cn_comment.Codec.V1.{Config, start, step, payload}
use zmq_cn_comment.Codec.V1.Frame.{frame, received, decode-frame_v1}

abbrev config : Config
config = record { max_msg_size = some 10; malloc = λ n. true }

-- A cancellation of a subscription.
abbrev cancellation : Msg
cancellation = record { type = MsgType.vsm; flags = 16; body = 65 ∷ 66 ∷ [] }

cancellation_fits : length (payload cancellation) + 1 < 2 ^ 64
unfolding payload is_subscribe is_cancel
cancellation_fits = omega arith

cancellation_allowed : exceeds config.max_msg_size (length (payload cancellation)) ≡ false
unfolding payload is_subscribe is_cancel
cancellation_allowed = refl

cancellation_memory : init_size config.malloc (length (payload cancellation)) ≡ some init
unfolding init_size payload is_subscribe is_cancel
cancellation_memory = refl

decode-frame_v1_example : decode (step config) start (frame cancellation ++ []) ≡ (
  ready,
  received (cancellation.flags % 2) init (payload cancellation),
  length (frame cancellation),
)
decode-frame_v1_example =
    decode-frame_v1 config cancellation init [] cancellation_fits cancellation_allowed
      cancellation_memory
