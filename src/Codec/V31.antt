-- ===== src/Codec/V31.antt =====
-- src/v3_1_encoder.cpp: the frames of ZMTP 3.1, those of ZMTP 2.0 but for subscriptions and
-- cancellations, which are commands that begin with their name.
pub mod Frame
pub mod Refused
mod Tests
use zmq_cn_comment.Base.{ℕ, ◌+◌, Bool, ◌||◌, List, [], ◌∷◌, ◌++◌, length, ltb, if◌then◌else◌}
use zmq_cn_comment.Message.{Msg, has_more, is_command, is_subscribe, is_cancel}
use zmq_cn_comment.Codec.V2.{flag_if, wire_more, wire_large, wire_command, size_bytes}

-- `sub_cmd_name`: a byte 9 and SUBSCRIBE.
abbrev pub sub_cmd_name : List ℕ
sub_cmd_name = 9 ∷ 83 ∷ 85 ∷ 66 ∷ 83 ∷ 67 ∷ 82 ∷ 73 ∷ 66 ∷ 69 ∷ []

-- `cancel_cmd_name`: a byte 6 and CANCEL.
abbrev pub cancel_cmd_name : List ℕ
cancel_cmd_name = 6 ∷ 67 ∷ 65 ∷ 78 ∷ 67 ∷ 69 ∷ 76 ∷ []

abbrev pub sub_cmd_name_size : ℕ
sub_cmd_name_size = 10

abbrev pub cancel_cmd_name_size : ℕ
cancel_cmd_name_size = 7

-- What the name of the command adds to the size.
abbrev pub name_size : Bool → Bool → ℕ
name_size sub cancel = if sub then sub_cmd_name_size else if cancel then cancel_cmd_name_size else 0

-- The name of the command, which follows the size.
abbrev pub name : Bool → Bool → List ℕ
name sub cancel = if sub then sub_cmd_name else if cancel then cancel_cmd_name else []

-- Whether the frame is a command on the wire.
unfoldable pub is_wire_command : Msg → Bool
is_wire_command m = is_command m || is_subscribe m || is_cancel m

-- `size` once the name has been added.
unfoldable pub wire_size : Msg → ℕ
wire_size m = length m.body + name_size (is_subscribe m) (is_cancel m)

-- `message_ready`: the header.
unfoldable pub header : Msg → List ℕ
header m =
    let flags =
      flag_if (has_more m) wire_more
      + flag_if (ltb 255 (length m.body)) wire_large
      + flag_if (is_wire_command m) wire_command in
    flags ∷ (size_bytes (wire_size m) ++ name (is_subscribe m) (is_cancel m))

-- What follows the size on the wire: the name of the command, and the body.
unfoldable pub payload : Msg → List ℕ
payload m = name (is_subscribe m) (is_cancel m) ++ m.body
