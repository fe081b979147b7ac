-- ===== src/Message.antt =====
-- src/msg.hpp and msg.cpp: the view of a message that the codecs, the pipes and the sockets share,
-- its type, its flag byte and the bytes of its body. Who owns the bytes and the reference counts
-- of long messages are not part of this view.
use zmq_cn_comment.Base.{ℕ, ◌/◌, ◌%◌, Bool, true, false, List, [], if◌then◌else◌, leb, ◌==◌}

-- `type_t`, the values of `_u.base.type`.
pub data MsgType : Type 0 where
  vsm lmsg delimiter cmsg zclmsg join leave : MsgType

pub record Msg : Type 0 where
  pub type : MsgType
  pub flags : ℕ
  pub body : List ℕ

abbrev pub more_flag : ℕ
more_flag = 1

abbrev pub command_flag : ℕ
command_flag = 2

-- `flags & mask` for a mask of one bit.
abbrev pub has_flag : ℕ → ℕ → Bool
has_flag f mask = f / mask % 2 == 1

-- `flags & CMD_TYPE_MASK`, which holds bits 2 to 4, divided by 4.
abbrev pub command_type : ℕ → ℕ
command_type f = f / 4 % 8

unfoldable pub has_more : Msg → Bool
has_more m = has_flag m.flags more_flag

unfoldable pub is_command : Msg → Bool
is_command m = has_flag m.flags command_flag

unfoldable pub is_subscribe : Msg → Bool
is_subscribe m = command_type m.flags == 3

unfoldable pub is_cancel : Msg → Bool
is_cancel m = command_type m.flags == 4

unfoldable pub is_ping : Msg → Bool
is_ping m = command_type m.flags == 1

unfoldable pub is_pong : Msg → Bool
is_pong m = command_type m.flags == 2

unfoldable pub is_close_cmd : Msg → Bool
is_close_cmd m = command_type m.flags == 5

unfoldable pub is_credential : Msg → Bool
is_credential m = has_flag m.flags 32

unfoldable pub is_routing_id : Msg → Bool
is_routing_id m = has_flag m.flags 64

unfoldable pub is_delimiter : Msg → Bool
is_delimiter m = elim m.type [ MsgType.delimiter ↦ true | _ ↦ false ]

unfoldable pub is_vsm : Msg → Bool
is_vsm m = elim m.type [ MsgType.vsm ↦ true | _ ↦ false ]

abbrev pub max_vsm_size : ℕ
max_vsm_size = 33

-- `init ()`: a message of no bytes.
abbrev pub init : Msg
init = record { type = MsgType.vsm; flags = 0; body = [] }

-- `init_delimiter ()`.
abbrev pub init_delimiter : Msg
init_delimiter = record { type = MsgType.delimiter; flags = 0; body = [] }

-- The type that `init_size (size)` gives to a message for which the memory is found.
abbrev pub type_of_size : ℕ → MsgType
type_of_size n = if leb n max_vsm_size then MsgType.vsm else MsgType.lmsg
