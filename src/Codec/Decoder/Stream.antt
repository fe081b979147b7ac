-- ===== src/Codec/Decoder/Stream.antt =====
-- The decoder reads a stream: how the bytes are cut into buffers makes no difference.
use zmq_cn_comment.Base.{
  ℕ, zero, suc, ◌+◌, ◌≤◌, ◌<◌, ◌≡◌, refl, ap, ap₂, ◌∙◌, sym, false, min, List, [], ◌∷◌, ◌++◌,
  length, take, drop, ◌==◌, ==_iff, append_assoc, append-nil, length-take, take-append-drop,
  length-drop, arith,
}
use zmq_cn_comment.Codec.Decoder.{
  Rc, again, ready, fail, Decoder, Decoded, Machine, settle, absorb, then_loop, then_settle,
  decode_loop, decode, decode_direct,
}

module _ {C : Type 0} (m : Machine C) where
  -- The decoder that takes one byte at a time, up to the end of the first message or an error.
  unfoldable pub feed_all : Decoder C → List ℕ → ℕ → Decoded C
  feed_all d [] used = (again, d, used)
  feed_all d (b ∷ bs) used =
      then_loop (λ d'. feed_all d' bs (used + 1)) (settle m.step 2 (absorb d (b ∷ []))) (used + 1)

  pub settle_pos :
      (fuel : ℕ) (d : Decoder C) → 0 < d.to_read → settle m.step (suc fuel) d ≡ (again, d)
  unfolding settle
  settle_pos fuel d h = rw (test_pos d.to_read h)
    where
      test_pos : (n : ℕ) → 0 < n → (n == 0) ≡ false
      test_pos n h = ground arith

  pub settle_zero :
      (fuel : ℕ) (d : Decoder C) (p : Rc × Decoder C)
      → d.to_read ≡ 0
      → m.step d ≡ p
      → settle m.step (suc fuel) d ≡ then_settle (settle m.step fuel) p
  unfolding settle
  settle_zero fuel d p e s = rw ((==_iff _ _).1 e, s)

  absorb-absorb :
      (d : Decoder C) (x : ℕ) (xs : List ℕ) → absorb (absorb d (x ∷ [])) xs ≡ absorb d (x ∷ xs)
  absorb-absorb d x xs = ground (arith, append_assoc d.filled (x ∷ []) xs)

  -- A chunk that is not longer than what the step waits for is stored at once.
  pub feed_all-append :
      (xs ys : List ℕ) (d : Decoder C) (used : ℕ)
      → 0 < length xs
      → length xs ≤ d.to_read
      → feed_all d (xs ++ ys) used
        ≡ then_loop
            (λ d'. feed_all d' ys (used + length xs))
            (settle m.step 2 (absorb d xs))
            (used + length xs)
  unfolding feed_all
  feed_all-append [] ys d used h k = absurd (omega arith)
  feed_all-append (x ∷ []) ys d used h k = refl
  feed_all-append (x ∷ y ∷ xs) ys d used h k = rw (settle_pos 1 (absorb d (x ∷ [])) (omega arith)) (
      feed_all-append (y ∷ xs) ys (absorb d (x ∷ [])) (used + 1) (omega arith) (omega arith)
      ∙ ap₂ (λ d' n. then_loop (λ d''. feed_all d'' ys n) (settle m.step 2 d') n)
          (absorb-absorb d x (y ∷ xs)) (omega arith))

  pub absorb_nil : (d : Decoder C) → d.filled ≡ [] → absorb d [] ≡ d
  absorb_nil d h = ground (arith, append-nil d.filled)

  -- A step that asks for more bytes is followed by them.
  pub feed_next :
      (d w : Decoder C) (bytes : List ℕ) (used : ℕ)
      → d.to_read ≡ 0
      → m.step d ≡ (again, w)
      → 0 < w.to_read
      → then_loop (λ d'. feed_all d' bytes used) (settle m.step 2 d) used ≡ feed_all w bytes used
  feed_next d w bytes used e s pos = rw (settle_zero 1 d _ e s, settle_pos 0 w pos)

  -- The step that has read a size is followed by the body, however long, and the step at its end.
  pub feed_sized :
      (d w end : Decoder C) (body rest : List ℕ) (used : ℕ)
      → d.to_read ≡ 0
      → m.step d ≡ (again, w)
      → w.to_read ≡ length body
      → w.filled ≡ []
      → m.step (absorb w body) ≡ (ready, end)
      → then_loop (λ d'. feed_all d' (body ++ rest) used) (settle m.step 2 d) used
        ≡ (ready, end, used + length body)
  feed_sized d w end [] rest used e s size fresh last =
      rw
        (
          settle_zero 1 d _ e s,
          settle_zero 0 w _ size (ap m.step (sym (absorb_nil w fresh)) ∙ last),
        )
        (ap (λ u. (ready, end, u)) (omega arith))
  feed_sized d w end (b ∷ body) rest used e s size fresh last = rw (
    settle_zero 1 d _ e s,
    settle_pos 0 w (omega arith),
    feed_all-append (b ∷ body) rest w used (omega arith) (omega arith),
    settle_zero 1 (absorb w (b ∷ body)) _ (omega arith) last,
  )

  then_loop_ext :
      (k k' : Decoder C → Decoded C) (p : Rc × Decoder C) (u : ℕ)
      → (p.0 ≡ again → k p.1 ≡ k' p.1)
      → then_loop k p u ≡ then_loop k' p u
  then_loop_ext k k' (again, d) u h = h refl
  then_loop_ext k k' (ready, d) u h = refl
  then_loop_ext k k' (fail e, d) u h = refl

  decode_loop-feed_all :
      (fuel : ℕ) (d : Decoder C) (bytes : List ℕ) (used : ℕ)
      → 0 < d.to_read
      → length bytes ≤ fuel
      → decode_loop m.step fuel d bytes used ≡ feed_all d bytes used
  unfolding decode_loop feed_all
  decode_loop-feed_all zero d [] used h k = refl
  decode_loop-feed_all zero d (b ∷ bs) used h k = absurd (omega arith)
  decode_loop-feed_all (suc fuel) d [] used h k = refl
  decode_loop-feed_all (suc fuel) d (b ∷ bs) used h k =
      then_loop_ext _ _ (settle m.step 2 (absorb d chunk)) (used + n) (λ e.
        decode_loop-feed_all fuel _ (drop n (b ∷ bs)) (used + n) (m.settles (absorb d chunk) e)
          (omega (arith, length-drop n (b ∷ bs))))
      ∙ sym (
          ap
            (λ k.
              then_loop (λ d'. feed_all d' (drop n (b ∷ bs)) (used + k))
                (settle m.step 2 (absorb d chunk)) (used + k))
            taken)
      ∙ sym (
          feed_all-append chunk (drop n (b ∷ bs)) d used (omega (arith, taken))
            (omega (arith, taken)))
      ∙ ap (λ bytes. feed_all d bytes used) (take-append-drop n (b ∷ bs))
    where
      n : ℕ
      n = min d.to_read (length (b ∷ bs))

      chunk : List ℕ
      chunk = take n (b ∷ bs)

      taken : length chunk ≡ n
      taken = omega (arith, length-take n (b ∷ bs))

  -- Copying whole chunks and running the steps gives what one byte at a time gives.
  pub decode-feed_all :
      (d : Decoder C) (bytes : List ℕ) → 0 < d.to_read → decode m.step d bytes ≡ feed_all d bytes 0
  unfolding decode
  decode-feed_all d bytes h = decode_loop-feed_all (length bytes) d bytes 0 h (omega arith)

  -- The caller's count of the bytes that earlier calls have taken.
  abbrev pub after : ℕ → Decoded C → Decoded C
  after n (rc, d, used) = (rc, d, n + used)

  feed_all-after :
      (d : Decoder C) (bytes : List ℕ) (n used : ℕ)
      → feed_all d bytes (n + used) ≡ after n (feed_all d bytes used)
  unfolding feed_all
  feed_all-after d [] n used = refl
  feed_all-after d (b ∷ bs) n used =
      go (settle m.step 2 (absorb d (b ∷ []))) (λ d'. feed_all-after d' bs n (used + 1))
    where
      go :
          (p : Rc × Decoder C)
          → ((d' : Decoder C)
              → feed_all d' bs (n + (used + 1)) ≡ after n (feed_all d' bs (used + 1)))
          → then_loop (λ d'. feed_all d' bs (n + used + 1)) p (n + used + 1)
            ≡ after n (then_loop (λ d'. feed_all d' bs (used + 1)) p (used + 1))
      go (again, d') ih = ap (feed_all d' bs) (omega arith) ∙ ih d'
      go (ready, d') ih = ap (λ u. (ready, d', u)) (omega arith)
      go (fail e, d') ih = ap (λ u. (fail e, d', u)) (omega arith)

  -- The caller hands over the next buffer if the last one asked for more.
  abbrev pub resume : (Decoder C → ℕ → Decoded C) → Decoded C → Decoded C
  resume k (again, d, used) = k d used
  resume k (ready, d, used) = (ready, d, used)
  resume k (fail e, d, used) = (fail e, d, used)

  feed_all-resume :
      (d : Decoder C) (xs ys : List ℕ) (used : ℕ)
      → feed_all d (xs ++ ys) used ≡ resume (λ d' u. feed_all d' ys u) (feed_all d xs used)
  unfolding feed_all
  feed_all-resume d [] ys used = refl
  feed_all-resume d (x ∷ xs) ys used =
      go (settle m.step 2 (absorb d (x ∷ []))) (λ d'. feed_all-resume d' xs ys (used + 1))
    where
      go :
          (p : Rc × Decoder C)
          → ((d' : Decoder C)
              → feed_all d' (xs ++ ys) (used + 1)
                ≡ resume (λ d'' u. feed_all d'' ys u) (feed_all d' xs (used + 1)))
          → then_loop (λ d'. feed_all d' (xs ++ ys) (used + 1)) p (used + 1)
            ≡ resume
                (λ d' u. feed_all d' ys u)
                (then_loop (λ d'. feed_all d' xs (used + 1)) p (used + 1))
      go (again, d') ih = ih d'
      go (ready, d') ih = refl
      go (fail e, d') ih = refl

  feed_all_pos :
      (d : Decoder C) (xs : List ℕ) (used : ℕ)
      → 0 < d.to_read
      → (feed_all d xs used).0 ≡ again
      → 0 < (feed_all d xs used).1.to_read
  unfolding feed_all
  feed_all_pos d [] used h e = h
  feed_all_pos d (x ∷ xs) used h e =
      go (settle m.step 2 (absorb d (x ∷ []))) (m.settles (absorb d (x ∷ [])))
        (λ d'. feed_all_pos d' xs (used + 1)) e
    where
      go :
          (p : Rc × Decoder C)
          → (p.0 ≡ again → 0 < p.1.to_read)
          → ((d' : Decoder C)
              → 0 < d'.to_read
              → (feed_all d' xs (used + 1)).0 ≡ again
              → 0 < (feed_all d' xs (used + 1)).1.to_read)
          → (then_loop (λ d'. feed_all d' xs (used + 1)) p (used + 1)).0 ≡ again
          → 0 < (then_loop (λ d'. feed_all d' xs (used + 1)) p (used + 1)).1.to_read
      go (again, d') pos ih e = ih d' (pos refl) e
      go (ready, d') pos ih e = cc
      go (fail x, d') pos ih e = cc

  -- `decode` on two buffers in turn, the second only if the first asked for more, gives what it
  -- gives on both at once: the same code, decoder and count of bytes. The decoder waits for a byte.
  pub decode-append :
      (d : Decoder C) (xs ys : List ℕ)
      → 0 < d.to_read
      → decode m.step d (xs ++ ys)
        ≡ resume (λ d' u. after u (decode m.step d' ys)) (decode m.step d xs)
  decode-append d xs ys h =
      decode-feed_all d (xs ++ ys) h
      ∙ feed_all-resume d xs ys 0
      ∙ go (feed_all d xs 0) (feed_all_pos d xs 0 h)
      ∙ ap (resume (λ d' u. after u (decode m.step d' ys))) (sym (decode-feed_all d xs h))
    where
      go :
          (r : Decoded C)
          → (r.0 ≡ again → 0 < r.1.to_read)
          → resume (λ d' u. feed_all d' ys u) r ≡ resume (λ d' u. after u (decode m.step d' ys)) r
      go (again, d', u) pos =
          ap (feed_all d' ys) (omega arith)
          ∙ feed_all-after d' ys u 0
          ∙ ap (after u) (sym (decode-feed_all d' ys (pos refl)))
      go (ready, d', u) pos = refl
      go (fail e, d', u) pos = refl

  -- The call on bytes, at least one, that stand in the message already gives what the copying call
  -- gives, if the decoder waits for as many or more.
  pub decode_direct-decode :
      (d : Decoder C) (bytes : List ℕ)
      → 0 < length bytes
      → length bytes ≤ d.to_read
      → decode_direct m.step d bytes ≡ decode m.step d bytes
  unfolding decode_direct feed_all
  decode_direct-decode d bytes h k = sym (
      decode-feed_all d bytes (omega arith)
      ∙ ap (λ xs. feed_all d xs 0) (sym (append-nil bytes))
      ∙ feed_all-append bytes [] d 0 h k
      ∙ ap (λ n. then_loop (λ d'. (again, d', n)) (settle m.step 2 (absorb d bytes)) n)
          (omega arith))
