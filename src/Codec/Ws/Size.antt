-- ===== src/Codec/Ws/Size.antt =====
-- The WebSocket decoder on the size of a frame, in one, three or nine bytes.
use zmq_cn_comment.Base.{
  ℕ, ◌+◌, ◌/◌, ◌%◌, ◌^◌, ◌<◌, ◌≡◌, refl, sym, ap, if_cases, ◌∙◌, Bool, true, false, not, same, List,
  [], ◌∷◌, ◌++◌, length, ltb, leb, ◌==◌, ==_iff, if◌then◌else◌, arith, lt→ltb, same_self,
}
use zmq_cn_comment.Errno.{Errno}
use zmq_cn_comment.Message.{has_flag}
use zmq_cn_comment.Wire.{put_uint64, get_uint64-put_uint64, length-put_uint64}
use zmq_cn_comment.Codec.Decoder.{Rc, again, fail, Decoder, Decoded, next_step, absorb}
use zmq_cn_comment.Codec.Decoder.Stream.{feed_all}
use zmq_cn_comment.Codec.Decoder.Chunks.{go_on, feed_chunk, go_on_waiting}
use zmq_cn_comment.Codec.V2.{flag_if}
use zmq_cn_comment.Codec.Ws.{
  Next, Control, Config, short_size_ready, long_size_ready, sized, size_first_byte_step,
  short_size_step, long_size_step, step,
}
use zmq_cn_comment.Codec.Ws.Settle.{machine}
use zmq_cn_comment.Codec.Ws.Encoder.{size_bytes}
use zmq_cn_comment.Codec.Ws.Feed.{at_size}

module _ (c : Config) where
  -- What the step makes of the mask bit and of the seven bits beside it.
  abbrev pub first_byte : Bool → ℕ → Decoder Control → Rc × Decoder Control
  first_byte is_masked n d =
      if not (same is_masked c.must_mask)
      then (fail Errno.unchanged, d)
      else if ltb n 126
      then sized c n d
      else if n == 126
      then (again, next_step (record (d.ctl) { size = n; next = short_size_ready }) 2)
      else (again, next_step (record (d.ctl) { size = n; next = long_size_ready }) 8)

  mask_bit :
      (is_masked : Bool) (x : ℕ) → x < 128 → has_flag (flag_if is_masked 128 + x) 128 ≡ is_masked
  mask_bit true x h = (==_iff _ _).1 (omega arith)
  mask_bit false x h = ground arith

  low_bits : (is_masked : Bool) (x : ℕ) → x < 128 → (flag_if is_masked 128 + x) % 128 ≡ x
  low_bits true x h = omega arith
  low_bits false x h = omega arith

  pub step_size_first :
      (k : Control) (is_masked : Bool) (x : ℕ)
      → x < 128
      → let d = absorb (at_size k) ((flag_if is_masked 128 + x) ∷ []) in
        step c d ≡ first_byte is_masked x d
  unfolding step size_first_byte_step
  step_size_first k is_masked x h =
      ap (λ b. first_byte b ((flag_if is_masked 128 + x) % 128) d) (mask_bit is_masked x h)
      ∙ ap (λ n. first_byte is_masked n d) (low_bits is_masked x h)
    where
      d : Decoder Control
      d = absorb (at_size k) ((flag_if is_masked 128 + x) ∷ [])

  first_byte_fits :
      (x : ℕ) (d : Decoder Control) → x < 126 → first_byte c.must_mask x d ≡ sized c x d
  first_byte_fits x d h = rw (same_self c.must_mask, lt→ltb x 126 h)

  first_byte_short :
      (d : Decoder Control)
      → first_byte c.must_mask 126 d
        ≡ (again, next_step (record (d.ctl) { size = 126; next = short_size_ready }) 2)
  first_byte_short d = rw (same_self c.must_mask)

  first_byte_long :
      (d : Decoder Control)
      → first_byte c.must_mask 127 d
        ≡ (again, next_step (record (d.ctl) { size = 127; next = long_size_ready }) 8)
  first_byte_long d = rw (same_self c.must_mask)

  step_fits :
      (k : Control) (x : ℕ)
      → x < 126
      → let d = absorb (at_size k) ((flag_if c.must_mask 128 + x) ∷ []) in step c d ≡ sized c x d
  step_fits k x h = step_size_first k c.must_mask x (omega arith) ∙ first_byte_fits x _ h

  -- The decoder that waits for the bytes of a longer size.
  abbrev waiting : Next → Control → ℕ → ℕ → Decoder Control
  waiting next k size n = next_step (record k { next = next; size = size }) n

  step_short :
      (k : Control) (n : ℕ)
      → n < 2 ^ 16
      → let d = absorb (waiting short_size_ready k 126 2) (n / 2 ^ 8 % 256 ∷ n % 256 ∷ []) in
        step c d ≡ sized c n d
  unfolding step short_size_step
  step_short k n h =
      ap
        (λ x.
          sized c x (absorb (waiting short_size_ready k 126 2) (n / 2 ^ 8 % 256 ∷ n % 256 ∷ [])))
        (omega arith)

  step_long :
      (k : Control) (n : ℕ)
      → n < 2 ^ 64
      → let d = absorb (waiting long_size_ready k 127 8) (put_uint64 n) in step c d ≡ sized c n d
  unfolding step long_size_step
  step_long k n h =
      ap (λ x. sized c x (absorb (waiting long_size_ready k 127 8) (put_uint64 n)))
        (get_uint64-put_uint64 n h)

  -- What follows the size goes the same way however the size was read.
  module _ (k : Control) (n : ℕ) (bytes : List ℕ) (result : ℕ → Decoded Control)
      (follows : (next : Next) (size to_read : ℕ) (filled : List ℕ) (u : ℕ)
        → go_on
            (machine c)
            (sized c n (record {
              ctl = record k { next = next; size = size };
              to_read = to_read;
              filled = filled;
            }))
            bytes
            u
          ≡ result u) where
    abbrev Read : List ℕ → Type 0
    Read size =
        (used : ℕ)
        → feed_all (machine c) (at_size k) (size ++ bytes) used ≡ result (used + length size)

    size-Read : n < 126 → Read ((flag_if c.must_mask 128 + n) ∷ [])
    size-Read h used =
        feed_chunk (machine c) (at_size k) ((flag_if c.must_mask 128 + n) ∷ []) bytes used
          (omega arith) refl
        ∙ ap (λ p. go_on (machine c) p bytes (used + 1)) (step_fits k n h)
        ∙ follows _ _ _ _ _

    -- The byte that announces a longer size, and the size.
    longer-Read :
        (x : ℕ) (w : Decoder Control) (size : List ℕ)
        → first_byte c.must_mask x (absorb (at_size k) ((flag_if c.must_mask 128 + x) ∷ []))
          ≡ (again, w)
        → x < 128
        → 0 < length size
        → w.to_read ≡ length size
        → ((u : ℕ) → go_on (machine c) (step c (absorb w size)) bytes u ≡ result u)
        → Read ((flag_if c.must_mask 128 + x) ∷ size)
    longer-Read x w size first h pos e last used =
        feed_chunk (machine c) (at_size k) ((flag_if c.must_mask 128 + x) ∷ []) (size ++ bytes) used
          (omega arith) refl
        ∙ ap (λ p. go_on (machine c) p (size ++ bytes) (used + 1))
            (step_size_first k c.must_mask x h ∙ first)
        ∙ go_on_waiting (machine c) w (size ++ bytes) (used + 1) (omega arith)
        ∙ feed_chunk (machine c) w size bytes (used + 1) pos e
        ∙ last (used + 1 + length size)
        ∙ ap result (omega arith)

    short-Read :
        n < 2 ^ 16 → Read ((flag_if c.must_mask 128 + 126) ∷ n / 2 ^ 8 % 256 ∷ n % 256 ∷ [])
    short-Read h =
        longer-Read 126 (waiting short_size_ready k 126 2) (n / 2 ^ 8 % 256 ∷ n % 256 ∷ [])
          (first_byte_short _) (omega arith) (omega arith) refl
          (λ u. ap (λ p. go_on (machine c) p bytes u) (step_short k n h) ∙ follows _ _ _ _ u)

    long-Read : n < 2 ^ 64 → Read ((flag_if c.must_mask 128 + 127) ∷ put_uint64 n)
    long-Read h =
        longer-Read 127 (waiting long_size_ready k 127 8) (put_uint64 n) (first_byte_long _)
          (omega arith) (omega (arith, length-put_uint64 n)) (sym (length-put_uint64 n))
          (λ u. ap (λ p. go_on (machine c) p bytes u) (step_long k n h) ∙ follows _ _ _ _ u)

    pub feed_size : n < 2 ^ 64 → Read (size_bytes c.must_mask n)
    unfolding size_bytes
    feed_size h =
        if_cases Read (leb n 125) (λ e. size-Read (ground arith))
          λ e. if_cases Read (leb n 0xFFFF) (λ e'. short-Read (ground arith)) λ e'. long-Read h
