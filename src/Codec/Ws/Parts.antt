-- ===== src/Codec/Ws/Parts.antt =====
-- The WebSocket decoder on what follows the size of a frame.

use zmq_cn_comment.Base.{
  ℕ, ◌+◌, ◌^◌, ◌<◌, ◌≡◌, refl, ap, ap₂, ◌∙◌, sym, Bool, true, false, List, [], ◌∷◌, ◌++◌, some,
  length, ◌==◌, ==_iff, if◌then◌else◌, arith, IsBytes,
}
use zmq_cn_comment.Message.{Msg, more_flag, command_flag}
use zmq_cn_comment.Codec.Decoder.{again, ready, Decoder, next_step, absorb}
use zmq_cn_comment.Codec.Decoder.Chunks.{go_on, feed_chunk, go_on_waiting}
use zmq_cn_comment.Codec.V2.{exceeds, new_message, flag_if}
use zmq_cn_comment.Codec.Ws.{
  Control, Config, mask_ready, opcode_binary, unmasked, sized, mask_ready_step, step, ws_more,
  ws_command,
}
use zmq_cn_comment.Codec.Ws.Settle.{machine}
use zmq_cn_comment.Codec.Ws.Encoder.{masked_byte}
use zmq_cn_comment.Codec.Ws.Feed.{received, unmasked_other, feed_body, feed_binary}

-- What follows the mask: the flag byte of a binary frame, and the body.
abbrev pub flag_part : Config → Bool → List ℕ → Bool → Bool → List ℕ
flag_part c binary mask more command =
    if binary
    then masked_byte c.must_mask mask 0 (flag_if more ws_more + flag_if command ws_command) ∷ []
    else []

-- The flags of a message, from those of the opcode and of the flag byte.
abbrev pub flags_of : Bool → ℕ → Bool → Bool → ℕ
flags_of binary flags more command =
    if binary then flag_if more more_flag + flag_if command command_flag else flags

module _ (c : Config) (m : Msg) (bytes rest : List ℕ) (lt : length bytes + 1 < 2 ^ 64)
    (fits : exceeds c.storage.max_msg_size (length bytes) ≡ false)
    (memory : new_message c.storage (length bytes) ≡ some m) where
  feed_unmasked :
      (binary : Bool) (d : Decoder Control) (flags : ℕ) (more command : Bool) (used : ℕ)
      → (d.ctl.opcode == opcode_binary) ≡ binary
      → d.ctl.size ≡ length bytes + flag_if binary 1
      → d.ctl.msg_flags ≡ (if binary then 0 else flags)
      → (c.must_mask ≡ true → IsBytes d.ctl.mask)
      → let part = flag_part c binary d.ctl.mask more command in
        go_on (machine c) (unmasked c d) (part ++ (bytes ++ rest)) used ≡ (
          ready,
          received c m
              (record (d.ctl) {
                msg_flags = flags_of binary flags more command;
                size = length bytes;
              })
              bytes,
          used + length part + length bytes,
        )
  feed_unmasked true d flags more command used e size zero h =
      feed_binary c m bytes rest lt fits memory d more command used ((==_iff _ _).0 e) size zero h
  feed_unmasked false d flags more command used e size zero h =
      ap (λ p. go_on (machine c) p (bytes ++ rest) used) (unmasked_other c d e)
      ∙ feed_body c m bytes rest lt fits memory d used (omega arith)
      ∙ ap₂ (λ n u. (ready, received c m (record (d.ctl) { size = n }) bytes, u)) (omega arith)
          (omega arith)
      ∙ ap
          (λ f. (
            ready,
            received c m (record (d.ctl) { msg_flags = f; size = length bytes }) bytes,
            used + 0 + length bytes,
          ))
          zero

  sized_masked :
      (n : ℕ) (d : Decoder Control)
      → c.must_mask ≡ true
      → sized c n d ≡ (again, next_step (record (d.ctl) { size = n; next = mask_ready }) 4)
  unfolding sized
  sized_masked n d e = rw e

  sized_plain :
      (n : ℕ) (d : Decoder Control)
      → c.must_mask ≡ false
      → sized c n d ≡ unmasked c (record d { ctl = record (d.ctl) { size = n } })
  unfolding sized
  sized_plain n d e = rw e

  flag_part_plain :
      (binary : Bool) (mask mask' : List ℕ) (more command : Bool)
      → c.must_mask ≡ false
      → flag_part c binary mask more command ≡ flag_part c binary mask' more command
  flag_part_plain true mask mask' more command e = rw e
  flag_part_plain false mask mask' more command e = refl

  -- What follows the size: the mask, if there is one, the flag byte and the body.
  pub feed_rest :
      (binary masked : Bool) (mask : List ℕ) (more command : Bool) (flags : ℕ) (d : Decoder Control)
      (used : ℕ)
      → c.must_mask ≡ masked
      → length mask ≡ 4
      → (d.ctl.opcode == opcode_binary) ≡ binary
      → d.ctl.msg_flags ≡ (if binary then 0 else flags)
      → IsBytes mask
      → let part = flag_part c binary mask more command in
        go_on
          (machine c)
          (sized c (length bytes + flag_if binary 1) d)
          ((if masked then mask else []) ++ (part ++ (bytes ++ rest)))
          used
        ≡ (
          ready,
          received c m
              (record (d.ctl) {
                mask = if masked then mask else d.ctl.mask;
                msg_flags = flags_of binary flags more command;
                size = length bytes;
              })
              bytes,
          used + length (if masked then mask else []) + length part + length bytes,
        )
  unfolding step mask_ready_step
  feed_rest binary true mask more command flags d used e size op zero h =
      ap (λ p. go_on (machine c) p (mask ++ after_mask) used) (sized_masked n d e)
      ∙ go_on_waiting (machine c) w (mask ++ after_mask) used (omega arith)
      ∙ feed_chunk (machine c) w mask after_mask used (omega arith) (omega arith)
      ∙ feed_unmasked binary (record (absorb w mask) { ctl = record (w.ctl) { mask = mask } }) flags
          more command (used + length mask) op refl zero (λ t. h)
    where
      n : ℕ
      n = length bytes + flag_if binary 1

      after_mask : List ℕ
      after_mask = flag_part c binary mask more command ++ (bytes ++ rest)

      w : Decoder Control
      w = next_step (record (d.ctl) { size = n; next = mask_ready }) 4
  feed_rest binary false mask more command flags d used e size op zero h =
      ap (λ p. go_on (machine c) p (flag_part c binary mask more command ++ (bytes ++ rest)) used)
        (sized_plain n d e)
      ∙ ap (λ t. go_on (machine c) (unmasked c d1) (t ++ (bytes ++ rest)) used) same_part
      ∙ feed_unmasked binary d1 flags more command used op refl zero (λ t. absurd_mask t)
      ∙ ap (λ t. (ready, end, used + length t + length bytes)) (sym same_part)
      ∙ ap (λ u. (ready, end, u)) (omega arith)
    where
      n : ℕ
      n = length bytes + flag_if binary 1

      d1 : Decoder Control
      d1 = record d { ctl = record (d.ctl) { size = n } }

      end : Decoder Control
      end =
          received c m
            (record (d.ctl) { msg_flags = flags_of binary flags more command; size = length bytes })
            bytes

      same_part : flag_part c binary mask more command ≡ flag_part c binary d.ctl.mask more command
      same_part = flag_part_plain binary mask d.ctl.mask more command e

      absurd_mask : c.must_mask ≡ true → IsBytes d.ctl.mask
      absurd_mask t = cc (e, t)
