-- ===== src/Codec/Decoder/Chunks.antt =====
-- The decoder loop on bytes that are cut as the steps ask for them.
use zmq_cn_comment.Base.{ℕ, ◌+◌, ◌<◌, ◌≡◌, refl, ap, ◌∙◌, sym, List, [], ◌∷◌, ◌++◌, length, arith}
use zmq_cn_comment.Codec.Decoder.{
  Rc, again, ready, Decoder, Decoded, Machine, settle, absorb, then_loop, then_settle,
}
use zmq_cn_comment.Codec.Decoder.Stream.{
  feed_all, feed_all-append, settle_zero, settle_pos, absorb_nil,
}

module _ {C : Type 0} (m : Machine C) where
  -- The loop after a step, with the bytes that follow.
  abbrev pub go_on : Rc × Decoder C → List ℕ → ℕ → Decoded C
  go_on p bytes used =
      then_loop (λ d. feed_all m d bytes used) (then_settle (settle m.step 1) p) used

  -- As many bytes as the step waits for.
  pub feed_chunk :
      (w : Decoder C) (xs rest : List ℕ) (used : ℕ)
      → 0 < length xs
      → w.to_read ≡ length xs
      → feed_all m w (xs ++ rest) used ≡ go_on (m.step (absorb w xs)) rest (used + length xs)
  feed_chunk w xs rest used pos e =
      feed_all-append m xs rest w used pos (omega arith)
      ∙ ap (λ p. then_loop (λ d. feed_all m d rest (used + length xs)) p (used + length xs))
          (settle_zero m 1 (absorb w xs) _ (omega arith) refl)

  -- A step that asks for bytes.
  pub go_on_waiting :
      (w : Decoder C) (bytes : List ℕ) (used : ℕ)
      → 0 < w.to_read
      → go_on (again, w) bytes used ≡ feed_all m w bytes used
  go_on_waiting w bytes used pos = rw (settle_pos m 0 w pos)

  -- A step that asks for a body, of no bytes or of some.
  pub go_on_body :
      (w end : Decoder C) (body rest : List ℕ) (used : ℕ)
      → w.to_read ≡ length body
      → w.filled ≡ []
      → m.step (absorb w body) ≡ (ready, end)
      → go_on (again, w) (body ++ rest) used ≡ (ready, end, used + length body)
  go_on_body w end [] rest used size fresh last =
      ap (λ p. then_loop (λ d. feed_all m d rest used) p used)
        (settle_zero m 0 w _ size (ap m.step (sym (absorb_nil m w fresh)) ∙ last))
      ∙ ap (λ u. (ready, end, u)) (omega arith)
  go_on_body w end (b ∷ body) rest used size fresh last =
      go_on_waiting w ((b ∷ body) ++ rest) used (omega arith)
      ∙ feed_chunk w (b ∷ body) rest used (omega arith) size
      ∙ ap (λ p. go_on p rest (used + length (b ∷ body))) last
