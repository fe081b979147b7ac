-- ===== src/Codec/Ws/Tests.antt =====
-- The theorems on WebSocket frames on concrete messages.
use zmq_cn_comment.Base.{
  ◌+◌, ◌^◌, ◌<◌, ◌≡◌, refl, true, false, [], ◌∷◌, ◌++◌, some, length, arith, IsBytes, no_byte, byte,
}
use zmq_cn_comment.Errno.{Errno}
use zmq_cn_comment.Message.{Msg, MsgType, is_subscribe, is_cancel, init}
use zmq_cn_comment.Codec.Storage.{init_size}
use zmq_cn_comment.Codec.Decoder.{ready, fail, decode}
use zmq_cn_comment.Codec.V2.{exceeds, new_message, flag_if}
use zmq_cn_comment.Codec.Ws.{Config, start, step}
use zmq_cn_comment.Codec.Ws.Encoder.{is_binary, frame, payload}
use zmq_cn_comment.Codec.Ws.Feed.{at_frame}
use zmq_cn_comment.Codec.Ws.Frame.{delivered, decode-frame_ws}
use zmq_cn_comment.Codec.Ws.Layout.{flag_if_small}
use zmq_cn_comment.Codec.Ws.Refused.{decode-frame_wrong_mask}

-- A server: frames are masked, of ten bytes at most, and there is memory.
abbrev server : Config
server = record {
  storage = record {
    max_msg_size = some 10;
    zero_copy = false;
    fits = λ n. false;
    malloc = λ n. true;
  };
  must_mask = true;
}

-- The first part of a message.
abbrev part : Msg
part = record { type = MsgType.vsm; flags = 1; body = 104 ∷ 105 ∷ 33 ∷ [] }

part-IsBytes : IsBytes part.body
part-IsBytes = byte (omega arith) (byte (omega arith) (byte (omega arith) no_byte))

part_fits : length (payload part) + 1 < 2 ^ 64
unfolding payload is_subscribe is_cancel
part_fits = omega arith

part_maskable : flag_if (is_binary part) 1 + length (payload part) < 2 ^ 31
unfolding payload is_subscribe is_cancel
part_maskable = omega (arith, flag_if_small (is_binary part))

part_allowed : exceeds server.storage.max_msg_size (length (payload part)) ≡ false
unfolding payload is_subscribe is_cancel
part_allowed = refl

part_memory : new_message server.storage (length (payload part)) ≡ some init
unfolding new_message init_size payload is_subscribe is_cancel
part_memory = refl

decode-frame_ws_example :
    decode (step server) (at_frame start.ctl) (frame true 3735928559 part ++ (130 ∷ 0 ∷ []))
    ≡ (ready, delivered server 3735928559 part init start.ctl, length (frame true 3735928559 part))
decode-frame_ws_example =
    decode-frame_ws server start.ctl 3735928559 part init (130 ∷ 0 ∷ []) part-IsBytes part_fits
      (λ e. part_maskable) part_allowed part_memory

decode-frame_wrong_mask_example :
    let r = decode (step server) (at_frame start.ctl) (frame false 7 part ++ []) in
    (r.0 ≡ fail Errno.unchanged) × (r.2 ≡ 2)
decode-frame_wrong_mask_example = decode-frame_wrong_mask server start.ctl false 7 part [] refl
