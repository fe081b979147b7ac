-- ===== src/Codec/V2/Refused.antt =====
-- ZMTP 2.0 frames that the decoder refuses, and those that it reads amiss.
use zmq_cn_comment.Base.{
  ℕ, ◌+◌, ◌%◌, ◌^◌, ◌<◌, ◌≡◌, ◌⊎◌, inl, inr, refl, sym, ap, subst, ◌∙◌, Bool, true, false, ◌||◌,
  List, [], ◌∷◌, ◌++◌, none, some, length, ltb, ◌==◌, ==_iff, if◌then◌else◌, append_assoc,
  length-append, arith,
}
use zmq_cn_comment.Errno.{Errno}
use zmq_cn_comment.Message.{
  Msg, more_flag, command_flag, has_more, is_command, is_subscribe, is_cancel, init,
}
use zmq_cn_comment.Wire.{put_uint64, get_uint64-put_uint64, length-put_uint64, put_uint64_256}
use zmq_cn_comment.Codec.Decoder.{
  Rc, again, ready, fail, Decoder, Decoded, settle, absorb, then_loop, then_settle, decode,
}
use zmq_cn_comment.Codec.Decoder.Stream.{feed_all, feed_all-append, decode-feed_all, settle_zero}
use zmq_cn_comment.Codec.V2.{
  Control, Config, one_byte_size_ready, eight_byte_size_ready, flag_if, exceeds, start, new_message,
  size_ready, step, machine, payload, wire_large, wire_more, wire_command, size_bytes,
}
use zmq_cn_comment.Codec.V2.Frame.{
  frame, frame_split, frame_split_consistent, wire_flags, received, waiting, step_flags, feed_frame,
  IsConsistent, length-payload,
}

pub new_message_zero : (c : Config) → new_message c 0 ≡ some init
unfolding new_message
new_message_zero c = ground arith

pub exceeds_zero : (c : Config) → exceeds c.max_msg_size 0 ≡ false
exceeds_zero c = ground arith

-- A subscription or cancellation of 255 bytes gets a size of eight bytes but no large flag. The
-- decoder then takes the first byte of the size, 0, for the whole of it: it delivers an empty
-- message after two bytes, whatever the configuration, and the rest of the frame is read as the
-- frames that follow.
pub decode-frame_255 :
    (c : Config) (m : Msg) (rest : List ℕ)
    → (is_subscribe m || is_cancel m) ≡ true
    → length m.body ≡ 255
    → decode (step c) start (frame m ++ rest) ≡ (ready, received (wire_flags m) init [], 2)
decode-frame_255 c m rest sub size =
    decode-feed_all (machine c) start (frame m ++ rest) (omega arith)
    ∙ ap (λ t. feed_all (machine c) start (t ++ rest) 0) split
    ∙ feed_frame c (has_more m) false (is_command m) [] _ init (omega arith) (exceeds_zero c)
        (new_message_zero c)
  where
    bytes : ℕ → ℕ → List ℕ
    bytes l n =
        (flag_if (has_more m) wire_more
          + flag_if (ltb 255 l) wire_large
          + flag_if (is_command m) wire_command)
        ∷ (size_bytes n ++ payload m)

    paylen : length (payload m) ≡ 256
    paylen = omega (arith, length-payload m, ap (λ b. flag_if b 1) sub)

    split :
        frame m
        ≡ (flag_if (has_more m) wire_more + 0 + flag_if (is_command m) wire_command)
          ∷ ((0 ∷ []) ++ (0 ∷ 0 ∷ 0 ∷ 0 ∷ 0 ∷ 1 ∷ 0 ∷ payload m))
    split =
        frame_split m
        ∙ ap (λ l. bytes l (length (payload m))) size
        ∙ ap (bytes 255) paylen
        ∙ ap
            (λ t.
              (flag_if (has_more m) wire_more + 0 + flag_if (is_command m) wire_command)
              ∷ (t ++ payload m))
            put_uint64_256

module _ (c : Config) where
  -- What the size step answers to a size that it refuses.
  size_refused :
      (n : ℕ) (d : Decoder Control)
      → n < 2 ^ 64
      → (exceeds c.max_msg_size n ≡ true) ⊎ (new_message c n ≡ none)
      → (size_ready c n d).0
        ≡ fail (if exceeds c.max_msg_size n then Errno.emsgsize else Errno.enomem)
  unfolding size_ready
  size_refused n d lt (inl over) = rw over
  size_refused n d lt (inr memory) =
      let small : (n == n % 2 ^ 64) ≡ true = (==_iff _ _).1 (omega arith) in
      rw (small, memory, size_ready) (ground arith)

  abbrev refusal : ℕ → Errno
  refusal n = if exceeds c.max_msg_size n then Errno.emsgsize else Errno.enomem

  abbrev flags : Bool → Bool → ℕ
  flags more command = flag_if more more_flag + flag_if command command_flag

  abbrev eight : Bool → Bool → Decoder Control
  eight more command = waiting eight_byte_size_ready (flags more command) 8

  step_one :
      (flags n : ℕ)
      → n < 2 ^ 64
      → (exceeds c.max_msg_size n ≡ true) ⊎ (new_message c n ≡ none)
      → (step c (absorb (waiting one_byte_size_ready flags 1) (n ∷ []))).0 ≡ fail (refusal n)
  unfolding step
  step_one flags n lt why =
      size_refused n (absorb (waiting one_byte_size_ready flags 1) (n ∷ [])) lt why

  step_eight :
      (flags n : ℕ)
      → n < 2 ^ 64
      → (exceeds c.max_msg_size n ≡ true) ⊎ (new_message c n ≡ none)
      → (step c (absorb (waiting eight_byte_size_ready flags 8) (put_uint64 n))).0
        ≡ fail (refusal n)
  unfolding step
  step_eight flags n lt why =
      subst (λ k. (size_ready c k at_size).0 ≡ fail (refusal n)) (sym (get_uint64-put_uint64 n lt))
        (size_refused n at_size lt why)
    where
      at_size : Decoder Control
      at_size = absorb (waiting eight_byte_size_ready flags 8) (put_uint64 n)

  -- A step that fails ends the loop.
  fail_loop :
      (k : Decoder Control → Decoded Control) (d : Decoder Control) (e : Errno) (used : ℕ)
      → d.to_read ≡ 0
      → (step c d).0 ≡ fail e
      → let r = then_loop k (settle (step c) 2 d) used in (r.0 ≡ fail e) × (r.2 ≡ used)
  fail_loop k d e used z h = rw (settle_zero (machine c) 1 d (step c d) z refl) (go (step c d) h)
    where
      go :
          (p : Rc × Decoder Control)
          → p.0 ≡ fail e
          → let r = then_loop k (then_settle (settle (step c) 1) p) used in
            (r.0 ≡ fail e) × (r.2 ≡ used)
      go (again, d') h = cc
      go (ready, d') h = cc
      go (fail x, d') h = (h, refl)

  -- The header of a frame that is refused.
  feed_refused :
      (more large command : Bool) (n : ℕ) (rest : List ℕ)
      → n < 2 ^ 64
      → (exceeds c.max_msg_size n ≡ true) ⊎ (new_message c n ≡ none)
      → let b = flag_if more wire_more + flag_if large wire_large + flag_if command wire_command in
        let size = if large then put_uint64 n else n ∷ [] in
        let r = feed_all (machine c) start (b ∷ (size ++ rest)) 0 in
        (r.0 ≡ fail (if exceeds c.max_msg_size n then Errno.emsgsize else Errno.enomem))
        × (r.2 ≡ 1 + length size)
  unfolding feed_all
  feed_refused more true command n rest lt why = rw (step_flags c more true command) (
      subst (λ r. (r.0 ≡ fail (refusal n)) × (r.2 ≡ 1 + length (put_uint64 n)))
        (sym (
          feed_all-append (machine c) (put_uint64 n) rest (eight more command) 1
            (omega (arith, length-put_uint64 n)) (omega (arith, length-put_uint64 n))))
        (fail_loop _ (absorb (eight more command) (put_uint64 n)) (refusal n)
          (1 + length (put_uint64 n)) (omega (arith, length-put_uint64 n))
          (step_eight (flags more command) n lt why)))
  feed_refused more false command n rest lt why = rw (step_flags c more false command) (
      fail_loop _ (absorb (waiting one_byte_size_ready (flags more command) 1) (n ∷ [])) (refusal n)
        2 refl (step_one (flags more command) n lt why))

-- A frame of a payload above the limit is refused with EMSGSIZE once the size has been read, and one
-- for which there is no memory with ENOMEM, if the message is no subscription or cancellation of 255
-- bytes and its payload fits 64 bits: no byte of the payload is consumed.
pub decode-frame_refused :
    (c : Config) (m : Msg) (rest : List ℕ)
    → IsConsistent m
    → length (payload m) < 2 ^ 64
    → (exceeds c.max_msg_size (length (payload m)) ≡ true)
      ⊎ (new_message c (length (payload m)) ≡ none)
    → let r = decode (step c) start (frame m ++ rest) in
      (r.0
        ≡ fail
            (if exceeds c.max_msg_size (length (payload m)) then Errno.emsgsize else Errno.enomem))
      × (r.2 + length (payload m) ≡ length (frame m))
decode-frame_refused c m rest consistent lt why =
    subst (λ (r : Decoded Control). (r.0 ≡ fail refused) × (r.2 + n ≡ length (frame m)))
      (sym (
        decode-feed_all (machine c) start (frame m ++ rest) (omega arith)
        ∙ ap (λ t. feed_all (machine c) start (t ++ rest) 0) split
        ∙ ap (λ t. feed_all (machine c) start (flag_byte ∷ t) 0)
            (append_assoc (size_bytes n) (payload m) rest)))
      (
        outcome.0,
        omega (arith, outcome.1, ap length split, length-append (size_bytes n) (payload m)),
      )
  where
    n : ℕ
    n = length (payload m)

    refused : Errno
    refused = if exceeds c.max_msg_size n then Errno.emsgsize else Errno.enomem

    flag_byte : ℕ
    flag_byte =
        flag_if (has_more m) wire_more
        + flag_if (ltb 255 n) wire_large
        + flag_if (is_command m) wire_command

    split : frame m ≡ flag_byte ∷ (size_bytes n ++ payload m)
    split = frame_split_consistent m consistent

    outcome :
        let r = feed_all (machine c) start (flag_byte ∷ (size_bytes n ++ (payload m ++ rest))) 0 in
        (r.0 ≡ fail refused) × (r.2 ≡ 1 + length (size_bytes n))
    outcome = feed_refused c (has_more m) (ltb 255 n) (is_command m) n (payload m ++ rest) lt why
