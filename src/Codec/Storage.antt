-- ===== src/Codec/Storage.antt =====
-- src/msg.cpp, `init_size` and `init (data, ...)`: which storage a decoded message gets. The memory
-- of the process is a parameter, `malloc n`: whether an allocation of `n` bytes succeeds.
use zmq_cn_comment.Base.{
  ℕ, ◌+◌, ◌%◌, ◌^◌, Bool, ◌&&◌, [], Option, none, some, if◌then◌else◌, ltb, leb,
}
use zmq_cn_comment.Message.{Msg, MsgType, max_vsm_size}

-- sizeof (content_t) where pointers have 64 bits.
abbrev pub content_size : ℕ
content_size = 40

abbrev pub empty_of : MsgType → Msg
empty_of t = record { type = t; flags = 0; body = [] }

module _ (malloc : ℕ → Bool) where
  unfoldable pub init_size : ℕ → Option Msg
  init_size n =
      if leb n max_vsm_size
      then some (empty_of MsgType.vsm)
      else if ltb n ((content_size + n) % 2 ^ 64) && malloc (content_size + n)
      then some (empty_of MsgType.lmsg)
      else none

  -- `init` on `n` bytes of a shared buffer, with the content handed in.
  unfoldable pub init_shared : ℕ → Option Msg
  unfolding init_size
  init_shared n = if ltb n max_vsm_size then init_size n else some (empty_of MsgType.zclmsg)
