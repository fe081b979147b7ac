-- ===== src/Codec/Ws/Refused.antt =====
-- WebSocket frames that the decoder refuses.
use zmq_cn_comment.Base.{
  ℕ, ◌+◌, ◌/◌, ◌%◌, ◌^◌, ◌<◌, ◌≡◌, refl, sym, ap, subst, ◌∙◌, Bool, true, false, not, same, List,
  [], ◌∷◌, ◌++◌, leb, if◌then◌else◌, append_assoc, arith, Bool-cases, inl, inr,
}
use zmq_cn_comment.Errno.{Errno}
use zmq_cn_comment.Message.{Msg}
use zmq_cn_comment.Wire.{put_uint64}
use zmq_cn_comment.Codec.Decoder.{fail, Decoder, absorb, decode}
use zmq_cn_comment.Codec.Decoder.Stream.{feed_all, decode-feed_all}
use zmq_cn_comment.Codec.Decoder.Chunks.{go_on, feed_chunk, go_on_waiting}
use zmq_cn_comment.Codec.V2.{flag_if}
use zmq_cn_comment.Codec.Ws.{Control, Config, step}
use zmq_cn_comment.Codec.Ws.Settle.{machine}
use zmq_cn_comment.Codec.Ws.Encoder.{
  opcode_of, is_binary, size_bytes, frame, header, body_bytes, wire_size,
}
use zmq_cn_comment.Codec.Ws.Feed.{at_frame, at_size, step_opcode}
use zmq_cn_comment.Codec.Ws.Layout.{control_flags, opcode_of-flags, opcode_of_small}
use zmq_cn_comment.Codec.Ws.Size.{first_byte, step_size_first}

-- A list that begins with the mask bit and seven other bits.
abbrev Masks : Bool → List ℕ → Type 0
Masks mm bytes = (x : ℕ) × (rest : List ℕ) × (x < 128) × (bytes ≡ (flag_if mm 128 + x) ∷ rest)

size_bytes-Masks : (mm : Bool) (n : ℕ) → Masks mm (size_bytes mm n)
unfolding size_bytes
size_bytes-Masks mm n = elim (Bool-cases (leb n 125)) [
  | inl e ↦ (n, [], ground arith, rw e)
  | inr e ↦ elim (Bool-cases (leb n 0xFFFF)) [
    | inl e' ↦ (126, n / 2 ^ 8 % 256 ∷ n % 256 ∷ [], omega arith, rw (e, e'))
    | inr e' ↦ (127, put_uint64 n, omega arith, rw (e, e'))
  ]
]

first_byte_wrong :
    (c : Config) (masked : Bool) (x : ℕ) (d : Decoder Control)
    → masked ≡ not c.must_mask
    → first_byte c masked x d ≡ (fail Errno.unchanged, d)
first_byte_wrong c masked x d e = rw (e, differs c.must_mask)
  where
    differs : (b : Bool) → same (not b) b ≡ false
    differs true = refl
    differs false = refl

module _ (c : Config) where
  refused :
      (k : Control) (masked : Bool) (x : ℕ) (rest : List ℕ)
      → masked ≡ not c.must_mask
      → x < 128
      → feed_all (machine c) (at_size k) ((flag_if masked 128 + x) ∷ rest) 1
        ≡ (fail Errno.unchanged, absorb (at_size k) ((flag_if masked 128 + x) ∷ []), 2)
  refused k masked x rest e h =
      feed_chunk (machine c) (at_size k) ((flag_if masked 128 + x) ∷ []) rest 1 (omega arith) refl
      ∙ ap (λ p. go_on (machine c) p rest 2)
          (step_size_first c k masked x h ∙ first_byte_wrong c masked x _ e)

  -- The opcode, and a size with the wrong mask bit.
  refused_after_opcode :
      (k : Control) (masked : Bool) (m : Msg) (size rest : List ℕ)
      → masked ≡ not c.must_mask
      → Masks masked size
      → let r = decode (step c) (at_frame k) ((128 + opcode_of m) ∷ (size ++ rest)) in
        (r.0 ≡ fail Errno.unchanged) × (r.2 ≡ 2)
  refused_after_opcode k masked m size rest e (x, tail, small, split) =
      (ap (λ r. r.0) whole, ap (λ r. r.2) whole)
    where
      flags : ℕ
      flags = if is_binary m then 0 else control_flags m

      k1 : Control
      k1 = record k { opcode = opcode_of m; msg_flags = flags }

      whole :
          decode (step c) (at_frame k) ((128 + opcode_of m) ∷ (size ++ rest))
          ≡ (fail Errno.unchanged, absorb (at_size k1) ((flag_if masked 128 + x) ∷ []), 2)
      whole =
          decode-feed_all (machine c) (at_frame k) _ (omega arith)
          ∙ feed_chunk (machine c) (at_frame k) ((128 + opcode_of m) ∷ []) (size ++ rest) 0
              (omega arith) refl
          ∙ ap (λ p. go_on (machine c) p (size ++ rest) 1)
              (step_opcode c k (opcode_of m) flags (opcode_of_small m) (opcode_of-flags m))
          ∙ go_on_waiting (machine c) (at_size k1) (size ++ rest) 1 (omega arith)
          ∙ ap (λ t. feed_all (machine c) (at_size k1) (t ++ rest) 1) split
          ∙ refused k1 masked x (tail ++ rest) e small

-- A frame that is masked where the decoder expects no mask, or is not where it expects one, is
-- refused after two bytes, whatever the message; errno is left as it was.
pub decode-frame_wrong_mask :
    (c : Config) (k : Control) (masked : Bool) (random : ℕ) (m : Msg) (rest : List ℕ)
    → masked ≡ not c.must_mask
    → let r = decode (step c) (at_frame k) (frame masked random m ++ rest) in
      (r.0 ≡ fail Errno.unchanged) × (r.2 ≡ 2)
unfolding frame header
decode-frame_wrong_mask c k masked random m rest e =
    subst
      (λ t.
        let r = decode (step c) (at_frame k) ((128 + opcode_of m) ∷ t) in
        (r.0 ≡ fail Errno.unchanged) × (r.2 ≡ 2))
      (sym (append_assoc (size ++ _) (body_bytes masked random m) rest ∙ append_assoc size _ _))
      (refused_after_opcode c k masked m size _ e (size_bytes-Masks masked (wire_size m)))
  where
    size : List ℕ
    size = size_bytes masked (wire_size m)
