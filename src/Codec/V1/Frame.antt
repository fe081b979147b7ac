-- ===== src/Codec/V1/Frame.antt =====
-- ZMTP 1.0 frames, written by the encoder and read by the decoder.
use zmq_cn_comment.Base.{
  ℕ, ◌+◌, ◌-◌, ◌%◌, ◌^◌, ◌<◌, ◌≡◌, refl, ap, ◌∙◌, Bool, true, false, ◌||◌, List, [], ◌∷◌, ◌++◌,
  some, length, ltb, ◌==◌, Bool-cases, ltb→lt, inl, inr, append_assoc, length-append, arith,
}
use zmq_cn_comment.Message.{Msg, is_subscribe, is_cancel, init}
use zmq_cn_comment.Wire.{put_uint64, get_uint64-put_uint64, length-put_uint64}
use zmq_cn_comment.Codec.Storage.{init_size}
use zmq_cn_comment.Codec.Decoder.{again, ready, Decoder, next_step, absorb, decode}
use zmq_cn_comment.Codec.Decoder.Stream.{
  feed_all, feed_next, feed_all-append, feed_sized, decode-feed_all,
}
use zmq_cn_comment.Codec.V2.{exceeds, flag_if, mark}
use zmq_cn_comment.Codec.V1.{
  Control, Config, one_byte_size_ready, eight_byte_size_ready, flags_ready, message_ready, start,
  allocate, sized, one_byte_step, flags_step, message_step, step, machine, size_bytes, header,
  payload,
}

-- The frame that the encoder writes.
abbrev pub frame : Msg → List ℕ
frame m = header m ++ m.body

-- The decoder once it has read a message.
abbrev pub received : ℕ → Msg → List ℕ → Decoder Control
received flags m body =
    next_step
      (record {
        next = one_byte_size_ready;
        size = length body;
        in_progress = record m { flags = flags; body = body };
      })
      1

abbrev at_flags : ℕ → Msg → Decoder Control
at_flags n m = next_step (record { next = flags_ready; size = n; in_progress = m }) 1

abbrev at_body : ℕ → ℕ → Msg → Decoder Control
at_body flags n m =
    next_step (record { next = message_ready; size = n; in_progress = record m { flags = flags } })
      n

module _ (c : Config) where
  allocate_ok :
      (n : ℕ) (d : Decoder Control) (m : Msg)
      → init_size c.malloc n ≡ some m
      → allocate c n d ≡ (again, at_flags n m)
  unfolding allocate
  allocate_ok n d m memory = rw (memory, allocate)

  sized_ok :
      (n : ℕ) (d : Decoder Control) (m : Msg)
      → exceeds c.max_msg_size n ≡ false
      → init_size c.malloc n ≡ some m
      → sized c (n + 1) d ≡ (again, at_flags n m)
  unfolding sized
  sized_ok n d m fits memory =
      let pos : (n + 1 == 0) ≡ false = ground arith in
      let less : n + 1 - 1 ≡ n = omega arith in rw (pos, less, fits) (allocate_ok n d m memory)

  step_flags :
      (b n : ℕ) (m : Msg) → step c (absorb (at_flags n m) (b ∷ [])) ≡ (again, at_body (b % 2) n m)
  unfolding step flags_step
  step_flags b n m = refl

  step_body :
      (flags : ℕ) (m : Msg) (body : List ℕ)
      → step c (absorb (at_body flags (length body) m) body) ≡ (ready, received flags m body)
  unfolding step message_step
  step_body flags m body = refl

  -- The flag byte and the body.
  feed_flags :
      (b used : ℕ) (m : Msg) (body rest : List ℕ)
      → feed_all (machine c) (at_flags (length body) m) (b ∷ (body ++ rest)) used
        ≡ (ready, received (b % 2) m body, used + 1 + length body)
  unfolding feed_all
  feed_flags b used m body rest =
      feed_sized (machine c) (absorb (at_flags (length body) m) (b ∷ []))
        (at_body (b % 2) (length body) m) _ body rest (used + 1) refl (step_flags b (length body) m)
        refl refl (step_body (b % 2) m body)

  -- The size, in one byte.
  step_one :
      (n : ℕ) (m : Msg)
      → n + 1 < 255
      → exceeds c.max_msg_size n ≡ false
      → init_size c.malloc n ≡ some m
      → step c (absorb start ((n + 1) ∷ [])) ≡ (again, at_flags n m)
  unfolding step one_byte_step
  step_one n m lt fits memory =
      let small : (n + 1 == 255) ≡ false = ground arith in
      rw (small, step) (sized_ok n (absorb start ((n + 1) ∷ [])) m fits memory)

  abbrev at_size : Decoder Control
  at_size = next_step (record { next = eight_byte_size_ready; size = 0; in_progress = init }) 8

  step_escape : step c (absorb start (255 ∷ [])) ≡ (again, at_size)
  unfolding step one_byte_step
  step_escape = refl

  step_eight :
      (n : ℕ) (m : Msg)
      → n + 1 < 2 ^ 64
      → exceeds c.max_msg_size n ≡ false
      → init_size c.malloc n ≡ some m
      → step c (absorb at_size (put_uint64 (n + 1))) ≡ (again, at_flags n m)
  unfolding step
  step_eight n m lt fits memory =
      ap (λ k. sized c k (absorb at_size (put_uint64 (n + 1)))) (get_uint64-put_uint64 (n + 1) lt)
      ∙ sized_ok n _ m fits memory

  -- A size of one byte or of nine, the flags, and a body of that size.
  feed_frame :
      (b : ℕ) (body rest : List ℕ) (m : Msg)
      → length body + 1 < 2 ^ 64
      → exceeds c.max_msg_size (length body) ≡ false
      → init_size c.malloc (length body) ≡ some m
      → feed_all (machine c) start (size_bytes (length body + 1) ++ (b ∷ (body ++ rest))) 0
        ≡ (ready, received (b % 2) m body, length (size_bytes (length body + 1)) + 1 + length body)
  unfolding feed_all
  feed_frame b body rest m lt fits memory = elim (Bool-cases (ltb n 255)) [
    | inl small ↦ rw small (
        feed_next (machine c) (absorb start (n ∷ [])) (at_flags (length body) m)
          (b ∷ (body ++ rest)) 1 refl (step_one (length body) m (ltb→lt n 255 small) fits memory)
          (omega arith)
        ∙ feed_flags b 1 m body rest)
    | inr large ↦ rw large (
        feed_next (machine c) (absorb start (255 ∷ [])) at_size
          (put_uint64 n ++ (b ∷ (body ++ rest))) 1 refl step_escape (omega arith)
        ∙ feed_all-append (machine c) (put_uint64 n) (b ∷ (body ++ rest)) at_size 1
            (omega (arith, length-put_uint64 n)) (omega (arith, length-put_uint64 n))
        ∙ feed_next (machine c) (absorb at_size (put_uint64 n)) (at_flags (length body) m)
            (b ∷ (body ++ rest)) (1 + length (put_uint64 n)) (omega (arith, length-put_uint64 n))
            (step_eight (length body) m lt fits memory) (omega arith)
        ∙ feed_flags b (1 + length (put_uint64 n)) m body rest
        ∙ ap (λ k. (ready, received (b % 2) m body, k)) (omega (arith, length-put_uint64 n)))
  ]
    where
      n : ℕ
      n = length body + 1

-- The size in the header is that of the payload and the flag byte.
size_payload :
    (sub cancel : Bool) (flags : ℕ) (body : List ℕ)
    → ((size_bytes (length body + 1 + flag_if (sub || cancel) 1) ++ (flags ∷ []))
          ++ mark sub cancel)
        ++ body
      ≡ size_bytes (length (mark sub cancel ++ body) + 1) ++ (flags ∷ (mark sub cancel ++ body))
size_payload sub cancel flags body =
    append_assoc (sz ++ (flags ∷ [])) (mark sub cancel) body
    ∙ append_assoc sz (flags ∷ []) (mark sub cancel ++ body)
    ∙ ap (λ k. size_bytes k ++ (flags ∷ (mark sub cancel ++ body))) (count sub cancel)
  where
    sz : List ℕ
    sz = size_bytes (length body + 1 + flag_if (sub || cancel) 1)

    count :
        (sub cancel : Bool)
        → length body + 1 + flag_if (sub || cancel) 1 ≡ length (mark sub cancel ++ body) + 1
    count true cancel = omega arith
    count false true = omega arith
    count false false = omega arith

frame_split :
    (m : Msg) → frame m ≡ size_bytes (length (payload m) + 1) ++ ((m.flags % 2) ∷ payload m)
unfolding header payload
frame_split m = size_payload (is_subscribe m) (is_cancel m) (m.flags % 2) m.body

-- A decoder that waits for a frame reads what the encoder wrote, all its bytes and no more: the
-- payload as the body, and the more flag as the only flag. The payload fits 64 bits and the limit,
-- and there is memory for it.
pub decode-frame_v1 :
    (c : Config) (m r : Msg) (rest : List ℕ)
    → length (payload m) + 1 < 2 ^ 64
    → exceeds c.max_msg_size (length (payload m)) ≡ false
    → init_size c.malloc (length (payload m)) ≡ some r
    → decode (step c) start (frame m ++ rest)
      ≡ (ready, received (m.flags % 2) r (payload m), length (frame m))
decode-frame_v1 c m r rest lt fits memory =
    decode-feed_all (machine c) start (frame m ++ rest) (omega arith)
    ∙ ap (λ t. feed_all (machine c) start (t ++ rest) 0) (frame_split m)
    ∙ ap (λ t. feed_all (machine c) start t 0)
        (append_assoc (size_bytes n) ((m.flags % 2) ∷ payload m) rest)
    ∙ feed_frame c (m.flags % 2) (payload m) rest r lt fits memory
    ∙ ap (λ f. (ready, received f r (payload m), count)) (omega arith)
    ∙ ap (λ k. (ready, received (m.flags % 2) r (payload m), k))
        (omega (
          arith,
          ap length (frame_split m),
          length-append (size_bytes n) ((m.flags % 2) ∷ payload m),
        ))
  where
    n : ℕ
    n = length (payload m) + 1

    count : ℕ
    count = length (size_bytes n) + 1 + length (payload m)
