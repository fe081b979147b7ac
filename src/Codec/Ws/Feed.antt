-- ===== src/Codec/Ws/Feed.antt =====
-- The WebSocket decoder on the parts of a frame: the opcode, the size, the mask, the flags, the body.
use Prim.Native.Nat.{bit_or, bit_xor}
use zmq_cn_comment.Base.{
  ℕ, ◌+◌, ◌-◌, ◌%◌, ◌^◌, ◌<◌, ◌≡◌, refl, ap, ap₂, ◌∙◌, Bool, true, false, not, List, [], ◌∷◌, ◌++◌,
  some, length, get_or, ◌==◌, ==_iff, if◌then◌else◌, arith, IsBytes,
}
use zmq_cn_comment.Errno.{Errno}
use zmq_cn_comment.Message.{Msg, more_flag, command_flag, has_flag}
use zmq_cn_comment.Codec.Decoder.{again, ready, fail, Decoder, next_step, absorb}
use zmq_cn_comment.Codec.Decoder.Chunks.{go_on, feed_chunk, go_on_waiting, go_on_body}
use zmq_cn_comment.Codec.V2.{exceeds, new_message, flag_if}
use zmq_cn_comment.Codec.Ws.{
  Control, Config, opcode_ready, size_first_byte_ready, flags_ready, message_ready, opcode_binary,
  opcode_flags, with_opcode, opcode_ready_step, apply_mask, size_ready, unmasked, flags_ready_step,
  message_ready_step, step, ws_more, ws_command,
}
use zmq_cn_comment.Codec.Ws.Settle.{machine}
use zmq_cn_comment.Codec.Ws.Mask.{masked_once}
use zmq_cn_comment.Codec.Ws.Encoder.{masked_byte}

-- A decoder that waits for the first byte of a frame.
abbrev pub at_frame : Control → Decoder Control
at_frame k = next_step (record k { next = opcode_ready }) 1

abbrev pub at_size : Control → Decoder Control
at_size k = next_step (record k { next = size_first_byte_ready }) 1

-- The body, unmasked if there is a mask.
abbrev pub received_body : Config → Control → List ℕ → List ℕ
received_body c k bytes =
    if c.must_mask then apply_mask k.mask (flag_if (k.opcode == opcode_binary) 1) bytes else bytes

-- The decoder once it has read a message.
abbrev pub received : Config → Msg → Control → List ℕ → Decoder Control
received c m k bytes =
    next_step
      (record k {
        next = opcode_ready;
        in_progress = record m { flags = k.msg_flags; body = received_body c k bytes };
      })
      1

pub step_opcode :
    (c : Config) (k : Control) (opcode flags : ℕ)
    → opcode < 16
    → opcode_flags opcode ≡ some flags
    → step c (absorb (at_frame k) ((128 + opcode) ∷ []))
      ≡ (again, at_size (record k { opcode = opcode; msg_flags = flags }))
unfolding step opcode_ready_step
step_opcode c k opcode flags lt e =
    ap
      (λ b.
        if not b
        then (fail Errno.unchanged, absorb (at_frame k) ((128 + opcode) ∷ []))
        else with_opcode ((128 + opcode) % 16) (opcode_flags ((128 + opcode) % 16))
            (absorb (at_frame k) ((128 + opcode) ∷ [])))
      final
    ∙ ap (λ o. with_opcode o (opcode_flags o) (absorb (at_frame k) ((128 + opcode) ∷ []))) low
    ∙ ap (λ o. with_opcode opcode o (absorb (at_frame k) ((128 + opcode) ∷ []))) e
  where
    final : has_flag (128 + opcode) 128 ≡ true
    final = (==_iff _ _).1 (omega arith)

    low : (128 + opcode) % 16 ≡ opcode
    low = omega arith

unmasked_binary :
    (c : Config) (d : Decoder Control)
    → d.ctl.opcode ≡ opcode_binary
    → 0 < d.ctl.size
    → unmasked c d ≡ (again, next_step (record (d.ctl) { next = flags_ready }) 1)
unfolding unmasked
unmasked_binary c d e pos =
    let binary : (d.ctl.opcode == opcode_binary) ≡ true = (==_iff _ _).1 e in
    let some_bytes : (d.ctl.size == 0) ≡ false = ground arith in rw (binary, some_bytes)

pub unmasked_other :
    (c : Config) (d : Decoder Control)
    → (d.ctl.opcode == opcode_binary) ≡ false
    → unmasked c d ≡ size_ready c d
unfolding unmasked
unmasked_other c d e = rw e

module _ (c : Config) (m : Msg) (bytes rest : List ℕ) (lt : length bytes + 1 < 2 ^ 64)
    (fits : exceeds c.storage.max_msg_size (length bytes) ≡ false)
    (memory : new_message c.storage (length bytes) ≡ some m) where
  size_ready_ok :
      (d : Decoder Control)
      → d.ctl.size ≡ length bytes
      → size_ready c d ≡ (
        again,
        next_step
            (record (d.ctl) {
              next = message_ready;
              in_progress = record m { flags = d.ctl.msg_flags };
            })
            d.ctl.size,
      )
  unfolding size_ready
  size_ready_ok d e =
      let small : (d.ctl.size == d.ctl.size % 2 ^ 64) ≡ true = (==_iff _ _).1 (omega arith) in
      rw
        (ap (exceeds c.storage.max_msg_size) e ∙ fits, small, ap (new_message c.storage) e ∙ memory)

  -- The body, after any step that ends with `size_ready`.
  pub feed_body :
      (d : Decoder Control) (used : ℕ)
      → d.ctl.size ≡ length bytes
      → go_on (machine c) (size_ready c d) (bytes ++ rest) used
        ≡ (ready, received c m d.ctl bytes, used + length bytes)
  unfolding step message_ready_step
  feed_body d used e =
      ap (λ p. go_on (machine c) p (bytes ++ rest) used) (size_ready_ok d e)
      ∙ go_on_body (machine c) _ (received c m d.ctl bytes) bytes rest used e refl refl

  -- The flags of the wire become those of the message.
  flags_back :
      (more command : Bool)
      → let f = flag_if more ws_more + flag_if command ws_command in
        bit_or
          (bit_or 0 (flag_if (has_flag f ws_more) more_flag))
          (flag_if (has_flag f ws_command) command_flag)
        ≡ flag_if more more_flag + flag_if command command_flag
  flags_back true true = refl
  flags_back true false = refl
  flags_back false true = refl
  flags_back false false = refl

  flag_byte_back :
      (mm : Bool) (mask : List ℕ) (f : ℕ)
      → (mm ≡ true → IsBytes mask)
      → f < 256
      → (if mm
          then bit_xor (masked_byte mm mask 0 f) (get_or mask 0 0)
          else masked_byte mm mask 0 f)
        ≡ f
  flag_byte_back true mask f h lt = masked_once mask 0 f (h refl) lt
  flag_byte_back false mask f h lt = refl

  -- The flag byte and the body of a binary frame.
  pub feed_binary :
      (d : Decoder Control) (more command : Bool) (used : ℕ)
      → d.ctl.opcode ≡ opcode_binary
      → d.ctl.size ≡ length bytes + 1
      → d.ctl.msg_flags ≡ 0
      → (c.must_mask ≡ true → IsBytes d.ctl.mask)
      → let f = flag_if more ws_more + flag_if command ws_command in
        go_on
          (machine c)
          (unmasked c d)
          ((masked_byte c.must_mask d.ctl.mask 0 f ∷ []) ++ (bytes ++ rest))
          used
        ≡ (
          ready,
          received c m
              (record (d.ctl) {
                msg_flags = flag_if more more_flag + flag_if command command_flag;
                size = length bytes;
              })
              bytes,
          used + 1 + length bytes,
        )
  unfolding step flags_ready_step
  feed_binary d more command used e size zero h =
      ap (λ p. go_on (machine c) p ((b ∷ []) ++ (bytes ++ rest)) used) asks
      ∙ go_on_waiting (machine c) w ((b ∷ []) ++ (bytes ++ rest)) used (omega arith)
      ∙ feed_chunk (machine c) w (b ∷ []) (bytes ++ rest) used (omega arith) refl
      ∙ ap
          (λ x.
            go_on (machine c) (size_ready c (st (decoded d.ctl.msg_flags x) wrapped))
              (bytes ++ rest) (used + 1))
          (flag_byte_back c.must_mask d.ctl.mask f h (small more command))
      ∙ ap₂ (λ x n. go_on (machine c) (size_ready c (st x n)) (bytes ++ rest) (used + 1))
          (ap (λ x. decoded x f) zero ∙ flags_back more command) (omega arith)
      ∙ feed_body (st (flag_if more more_flag + flag_if command command_flag) (length bytes))
          (used + 1) refl
    where
      f : ℕ
      f = flag_if more ws_more + flag_if command ws_command

      b : ℕ
      b = masked_byte c.must_mask d.ctl.mask 0 f

      wrapped : ℕ
      wrapped = (d.ctl.size + 2 ^ 64 - 1) % 2 ^ 64

      w : Decoder Control
      w = next_step (record (d.ctl) { next = flags_ready }) 1

      st : ℕ → ℕ → Decoder Control
      st x n = record (absorb w (b ∷ [])) { ctl = record (w.ctl) { msg_flags = x; size = n } }

      decoded : ℕ → ℕ → ℕ
      decoded old x =
          bit_or (bit_or old (flag_if (has_flag x ws_more) more_flag))
            (flag_if (has_flag x ws_command) command_flag)

      small : (more command : Bool) → flag_if more ws_more + flag_if command ws_command < 256
      small more command = ground arith

      asks : unmasked c d ≡ (again, w)
      asks = unmasked_binary c d e (omega arith)
