-- ===== src/Codec/V2/Frame.antt =====
-- ZMTP 2.0 frames, written by the encoder and read by the decoder.
use zmq_cn_comment.Base.{
  ◌⊎◌, inl, inr, ◌≢◌, ℕ, ◌+◌, ◌%◌, ◌^◌, ◌<◌, ◌≡◌, refl, ap, ◌∙◌, Bool, true, false, ◌||◌, List, [],
  ◌∷◌, ◌++◌, some, length, ltb, ◌==◌, ==_iff, if◌then◌else◌, append_assoc, length-append, arith,
}
use zmq_cn_comment.Message.{
  Msg, more_flag, command_flag, has_more, is_command, is_subscribe, is_cancel, init,
}
use zmq_cn_comment.Wire.{put_uint64, get_uint64-put_uint64, length-put_uint64}
use zmq_cn_comment.Codec.Decoder.{
  again, ready, Decoder, next_step, settle, absorb, then_loop, decode,
}
use zmq_cn_comment.Codec.Decoder.Stream.{feed_sized, feed_all, feed_all-append, decode-feed_all}
use zmq_cn_comment.Codec.V2.{
  Next, Control, Config, flags_ready, one_byte_size_ready, eight_byte_size_ready, message_ready,
  flag_if, exceeds, start, new_message, flags_ready_step, size_ready, message_ready_step, step,
  machine, header, payload, wire_large, wire_more, wire_command, size_bytes, mark,
}

-- The frame that the encoder writes.
abbrev pub frame : Msg → List ℕ
frame m = header m ++ m.body

-- The flags that survive the wire.
abbrev pub wire_flags : Msg → ℕ
wire_flags m = flag_if (has_more m) more_flag + flag_if (is_command m) command_flag

-- The decoder once it has read a message of type, flags and body.
abbrev pub received : ℕ → Msg → List ℕ → Decoder Control
received flags m body =
    next_step
      (record {
        next = flags_ready;
        msg_flags = flags;
        in_progress = record m { flags = flags; body = body };
      })
      1

abbrev pub sized : ℕ → Msg → ℕ → Decoder Control
sized flags m n =
    next_step
      (record { next = message_ready; msg_flags = flags; in_progress = record m { flags = flags } })
      n

-- The decoder that waits for the bytes of the size.
abbrev pub waiting : Next → ℕ → ℕ → Decoder Control
waiting next flags n = next_step (record { next = next; msg_flags = flags; in_progress = init }) n

module _ (c : Config) where
  -- The step at the end of the body.
  step_body :
      (flags : ℕ) (m : Msg) (n : ℕ) (body : List ℕ)
      → step c (absorb (sized flags m n) body) ≡ (ready, received flags m body)
  unfolding step message_ready_step
  step_body flags m n body = refl

  -- After the size has been read the body follows, however long.
  feed_body :
      (d : Decoder Control) (flags : ℕ) (m : Msg) (body rest : List ℕ) (used : ℕ)
      → d.to_read ≡ 0
      → step c d ≡ (again, sized flags m (length body))
      → then_loop (λ d'. feed_all (machine c) d' (body ++ rest) used) (settle (step c) 2 d) used
        ≡ (ready, received flags m body, used + length body)
  feed_body d flags m body rest used e s =
      feed_sized (machine c) d (sized flags m (length body)) _ body rest used e s refl refl
        (step_body flags m (length body) body)

  -- The flag byte that the encoder writes, and what the decoder makes of it.
  pub step_flags :
      (more large command : Bool)
      → let b = flag_if more wire_more + flag_if large wire_large + flag_if command wire_command in
        let flags = flag_if more more_flag + flag_if command command_flag in
        settle (step c) 2 (absorb start (b ∷ [])) ≡ (
          again,
          (if large
              then waiting eight_byte_size_ready flags 8
              else waiting one_byte_size_ready flags 1),
        )
  unfolding step settle flags_ready_step
  step_flags true true true = refl
  step_flags true true false = refl
  step_flags true false true = refl
  step_flags true false false = refl
  step_flags false true true = refl
  step_flags false true false = refl
  step_flags false false true = refl
  step_flags false false false = refl

  pub size_ready_ok :
      (n : ℕ) (d : Decoder Control) (m : Msg)
      → n < 2 ^ 64
      → exceeds c.max_msg_size n ≡ false
      → new_message c n ≡ some m
      → size_ready c n d ≡ (again, sized d.ctl.msg_flags m n)
  unfolding size_ready
  size_ready_ok n d m lt fits memory =
      let small : (n == n % 2 ^ 64) ≡ true = (==_iff _ _).1 (omega arith) in
      rw (fits, small, memory, size_ready)

  -- The step that has read the size, in one byte or in eight.
  step_one :
      (flags n : ℕ) (m : Msg)
      → n < 2 ^ 64
      → exceeds c.max_msg_size n ≡ false
      → new_message c n ≡ some m
      → step c (absorb (waiting one_byte_size_ready flags 1) (n ∷ [])) ≡ (again, sized flags m n)
  unfolding step
  step_one flags n m lt fits memory = size_ready_ok n _ m lt fits memory

  step_eight :
      (flags n : ℕ) (m : Msg)
      → n < 2 ^ 64
      → exceeds c.max_msg_size n ≡ false
      → new_message c n ≡ some m
      → step c (absorb (waiting eight_byte_size_ready flags 8) (put_uint64 n))
        ≡ (again, sized flags m n)
  unfolding step
  step_eight flags n m lt fits memory =
      ap (λ k. size_ready c k at_size) (get_uint64-put_uint64 n lt)
      ∙ size_ready_ok n at_size m lt fits memory
    where
      at_size : Decoder Control
      at_size = absorb (waiting eight_byte_size_ready flags 8) (put_uint64 n)

  -- The bytes of the size, and a body of that size.
  feed_size :
      (d : Decoder Control) (size body rest : List ℕ) (flags used : ℕ) (m : Msg)
      → 0 < length size
      → d.to_read ≡ length size
      → step c (absorb d size) ≡ (again, sized flags m (length body))
      → feed_all (machine c) d (size ++ (body ++ rest)) used
        ≡ (ready, received flags m body, used + length size + length body)
  feed_size d size body rest flags used m pos e s =
      feed_all-append (machine c) size (body ++ rest) d used pos (omega arith)
      ∙ feed_body (absorb d size) flags m body rest (used + length size) (omega arith) s

  -- A flag byte, a size of one or of eight bytes, and a body of that size.
  pub feed_frame :
      (more large command : Bool) (body rest : List ℕ) (m : Msg)
      → length body < 2 ^ 64
      → exceeds c.max_msg_size (length body) ≡ false
      → new_message c (length body) ≡ some m
      → let b = flag_if more wire_more + flag_if large wire_large + flag_if command wire_command in
        let size = if large then put_uint64 (length body) else length body ∷ [] in
        feed_all (machine c) start (b ∷ (size ++ (body ++ rest))) 0 ≡ (
          ready,
          received (flag_if more more_flag + flag_if command command_flag) m body,
          1 + length size + length body,
        )
  unfolding feed_all
  feed_frame more true command body rest m lt fits memory = rw (step_flags more true command) (
      feed_size (waiting eight_byte_size_ready flags 8) (put_uint64 (length body)) body rest flags 1
        m (omega (arith, length-put_uint64 (length body)))
        (omega (arith, length-put_uint64 (length body))) (step_eight flags _ m lt fits memory))
    where
      flags : ℕ
      flags = flag_if more more_flag + flag_if command command_flag
  feed_frame more false command body rest m lt fits memory = rw (step_flags more false command) (
      feed_size (waiting one_byte_size_ready flags 1) (length body ∷ []) body rest flags 1 m
        (omega arith) (omega arith) (step_one flags _ m lt fits memory))
    where
      flags : ℕ
      flags = flag_if more more_flag + flag_if command command_flag

-- The size in the header is that of the payload.
size_payload :
    (sub cancel : Bool) (body : List ℕ)
    → (size_bytes (length body + flag_if (sub || cancel) 1) ++ mark sub cancel) ++ body
      ≡ size_bytes (length (mark sub cancel ++ body)) ++ (mark sub cancel ++ body)
size_payload true cancel body =
    append_assoc _ (1 ∷ []) body ∙ ap (λ n. size_bytes n ++ (1 ∷ body)) (omega arith)
size_payload false true body =
    append_assoc _ (0 ∷ []) body ∙ ap (λ n. size_bytes n ++ (0 ∷ body)) (omega arith)
size_payload false false body =
    append_assoc _ [] body ∙ ap (λ n. size_bytes n ++ body) (omega arith)

length-mark :
    (sub cancel : Bool) (body : List ℕ)
    → length (mark sub cancel ++ body) ≡ length body + flag_if (sub || cancel) 1
length-mark true cancel body = omega arith
length-mark false true body = omega arith
length-mark false false body = omega arith

pub length-payload :
    (m : Msg) → length (payload m) ≡ length m.body + flag_if (is_subscribe m || is_cancel m) 1
unfolding payload
length-payload m = length-mark (is_subscribe m) (is_cancel m) m.body

pub frame_split :
    (m : Msg)
    → frame m
      ≡ (flag_if (has_more m) wire_more
          + flag_if (ltb 255 (length m.body)) wire_large
          + flag_if (is_command m) wire_command)
        ∷ (size_bytes (length (payload m)) ++ payload m)
unfolding header payload
frame_split m = ap (λ t. flag_byte ∷ t) (size_payload (is_subscribe m) (is_cancel m) m.body)
  where
    flag_byte : ℕ
    flag_byte =
        flag_if (has_more m) wire_more
        + flag_if (ltb 255 (length m.body)) wire_large
        + flag_if (is_command m) wire_command

-- All but the subscriptions and cancellations of 255 bytes.
abbrev pub IsConsistent : Msg → Type 0
IsConsistent m = ((is_subscribe m || is_cancel m) ≡ false) ⊎ (length m.body ≢ 255)

-- The large flag and the width of the size agree.
consistent_large :
    (m : Msg) → IsConsistent m → ltb 255 (length m.body) ≡ ltb 255 (length (payload m))
consistent_large m h = rw (length-payload m) (go (is_subscribe m || is_cancel m) (length m.body) h)
  where
    go : (b : Bool) (n : ℕ) → (b ≡ false) ⊎ (n ≢ 255) → ltb 255 n ≡ ltb 255 (n + flag_if b 1)
    go true n (inl e) = cc
    go true n (inr ne) = ground arith
    go false n h = ground arith

pub frame_split_consistent :
    (m : Msg)
    → IsConsistent m
    → frame m
      ≡ (flag_if (has_more m) wire_more
          + flag_if (ltb 255 (length (payload m))) wire_large
          + flag_if (is_command m) wire_command)
        ∷ (size_bytes (length (payload m)) ++ payload m)
frame_split_consistent m consistent =
    frame_split m
    ∙ ap
        (λ b.
          (flag_if (has_more m) wire_more
            + flag_if b wire_large
            + flag_if (is_command m) wire_command)
          ∷ (size_bytes (length (payload m)) ++ payload m))
        (consistent_large m consistent)

-- A decoder that waits for a frame reads what the encoder wrote: all its bytes and no more, the
-- payload as the body, and the more and command flags. The message is no subscription or cancellation
-- of 255 bytes, its payload fits 64 bits and the limit, and there is memory for it.
pub decode-frame :
    (c : Config) (m r : Msg) (rest : List ℕ)
    → IsConsistent m
    → length (payload m) < 2 ^ 64
    → exceeds c.max_msg_size (length (payload m)) ≡ false
    → new_message c (length (payload m)) ≡ some r
    → decode (step c) start (frame m ++ rest)
      ≡ (ready, received (wire_flags m) r (payload m), length (frame m))
decode-frame c m r rest consistent lt fits memory =
    decode-feed_all (machine c) start (frame m ++ rest) (omega arith)
    ∙ ap (λ t. feed_all (machine c) start (t ++ rest) 0) split
    ∙ ap (λ t. feed_all (machine c) start (flag_byte ∷ t) 0) (append_assoc size (payload m) rest)
    ∙ feed_frame c (has_more m) (ltb 255 (length (payload m))) (is_command m) (payload m) rest r lt
        fits memory
    ∙ ap (λ n. (ready, received (wire_flags m) r (payload m), n)) count
  where
    size : List ℕ
    size = size_bytes (length (payload m))

    flag_byte : ℕ
    flag_byte =
        flag_if (has_more m) wire_more
        + flag_if (ltb 255 (length (payload m))) wire_large
        + flag_if (is_command m) wire_command

    split : frame m ≡ flag_byte ∷ (size ++ payload m)
    split = frame_split_consistent m consistent

    count : 1 + length size + length (payload m) ≡ length (frame m)
    count = omega (arith, ap length split, length-append size (payload m))
