-- ===== src/Codec/Ws/Settle.antt =====
-- The steps of the WebSocket decoder settle: after at most two the decoder has returned or waits.
use zmq_cn_comment.Base.{
  ℕ, ◌<◌, ◌≡◌, ◌⊎◌, inl, inr, refl, ◌%◌, Option, none, some, if◌then◌else◌, ◌==◌, arith,
}
use zmq_cn_comment.Message.{Msg}
use zmq_cn_comment.Codec.Decoder.{Rc, again, ready, fail, Decoder, Machine, settle, then_settle}
use zmq_cn_comment.Codec.Ws.{
  Next, Control, Config, opcode_ready, size_first_byte_ready, short_size_ready, long_size_ready,
  mask_ready, flags_ready, message_ready, tmpbuf, opcode_flags, with_opcode, opcode_ready_step,
  with_message, size_ready, unmasked, sized, size_first_byte_step, short_size_step, long_size_step,
  mask_ready_step, flags_ready_step, message_ready_step, step_at, step, new_message,
}

-- A step that goes on waits for bytes, or for the end of a message.
abbrev Waits : Rc × Decoder Control → Type 0
Waits p = p.0 ≡ again → (0 < p.1.to_read) ⊎ (p.1.ctl.next ≡ message_ready)

with_message-Waits : (o : Option Msg) (d : Decoder Control) → Waits (with_message o d)
with_message-Waits none d h = cc
with_message-Waits (some m) d h = inr refl

size_ready-Waits : (c : Config) (d : Decoder Control) → Waits (size_ready c d)
unfolding size_ready
size_ready-Waits c d h = ground (arith, with_message-Waits (new_message c.storage d.ctl.size) d)

unmasked-Waits : (c : Config) (d : Decoder Control) → Waits (unmasked c d)
unfolding unmasked
unmasked-Waits c d h = ground (arith, size_ready-Waits c d)

sized-Waits : (c : Config) (n : ℕ) (d : Decoder Control) → Waits (sized c n d)
unfolding sized
sized-Waits c n d h =
    ground (arith, unmasked-Waits c (record d { ctl = record (d.ctl) { size = n } }))

with_opcode-Waits :
    (opcode : ℕ) (o : Option ℕ) (d : Decoder Control) → Waits (with_opcode opcode o d)
with_opcode-Waits opcode none d h = cc
with_opcode-Waits opcode (some flags) d h = inl (omega arith)

opcode_ready_step-Waits : (d : Decoder Control) → Waits (opcode_ready_step d)
unfolding opcode_ready_step
opcode_ready_step-Waits d h =
    ground (arith, with_opcode-Waits (tmpbuf d 0 % 16) (opcode_flags (tmpbuf d 0 % 16)) d)

size_first_byte_step-Waits : (c : Config) (d : Decoder Control) → Waits (size_first_byte_step c d)
unfolding size_first_byte_step
size_first_byte_step-Waits c d h = ground (arith, sized-Waits c (tmpbuf d 0 % 128) d)

step_at-Waits : (next : Next) (c : Config) (d : Decoder Control) → Waits (step_at next c d)
unfolding short_size_step long_size_step mask_ready_step flags_ready_step message_ready_step
step_at-Waits opcode_ready c d = opcode_ready_step-Waits d
step_at-Waits size_first_byte_ready c d = size_first_byte_step-Waits c d
step_at-Waits short_size_ready c d = sized-Waits c _ d
step_at-Waits long_size_ready c d = sized-Waits c _ d
step_at-Waits mask_ready c d = unmasked-Waits c _
step_at-Waits flags_ready c d = size_ready-Waits c _
step_at-Waits message_ready c d = λ h. cc

step-Waits : (c : Config) (d : Decoder Control) → Waits (step c d)
unfolding step
step-Waits c d = step_at-Waits d.ctl.next c d

step-message_ready :
    (c : Config) (d : Decoder Control) → d.ctl.next ≡ message_ready → (step c d).0 ≡ ready
unfolding step message_ready_step
step-message_ready c d h = rw h

-- Whatever waits for no byte is at the end of a message.
settle_one :
    (c : Config) (d : Decoder Control)
    → (0 < d.to_read) ⊎ (d.ctl.next ≡ message_ready)
    → (settle (step c) 1 d).0 ≡ again
    → 0 < (settle (step c) 1 d).1.to_read
unfolding settle
settle_one c d w h = go (step c d) (step-message_ready c d) w h
  where
    go :
        (p : Rc × Decoder Control)
        → (d.ctl.next ≡ message_ready → p.0 ≡ ready)
        → (0 < d.to_read) ⊎ (d.ctl.next ≡ message_ready)
        → (if d.to_read == 0 then then_settle (λ d'. (again, d')) p else (again, d)).0 ≡ again
        → 0 < (if d.to_read == 0 then then_settle (λ d'. (again, d')) p else (again, d)).1.to_read
    go (again, d') last (inl pos) h = ground arith
    go (again, d') last (inr e) h = cc (last e)
    go (ready, d') last w h = ground arith
    go (fail e, d') last w h = ground arith

pub step_settles :
    (c : Config) (d : Decoder Control)
    → (settle (step c) 2 d).0 ≡ again
    → 0 < (settle (step c) 2 d).1.to_read
unfolding settle
step_settles c d h = go (step c d) (step-Waits c d) h
  where
    two : Rc × Decoder Control → Rc × Decoder Control
    two p = if d.to_read == 0 then then_settle (settle (step c) 1) p else (again, d)

    go : (p : Rc × Decoder Control) → Waits p → (two p).0 ≡ again → 0 < (two p).1.to_read
    go (again, d') w h = ground (arith, settle_one c d' (w refl))
    go (ready, d') w h = ground arith
    go (fail e, d') w h = ground arith

abbrev pub machine : Config → Machine Control
machine c = record { step = step c; settles = step_settles c }
