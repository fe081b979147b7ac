-- ===== src/Codec/Encoder/Loop.antt =====
-- One call of the encoder: what it hands out and what it leaves to come.
use zmq_cn_comment.Base.{
  ℕ, zero, suc, ◌-◌, ◌≤◌, ◌<◌, ◌≡◌, refl, sym, ap, subst, ◌∙◌, ◌⊎◌, inl, inr, Bool, true, false,
  ◌&&◌, List, [], ◌∷◌, ◌++◌, none, some, length, take, drop, leb, ◌==◌, if◌then◌else◌, Bool-cases,
  append_assoc, append-nil, take-append-drop, length-append, length-take, length-drop, arith,
}
use zmq_cn_comment.Message.{Msg}
use zmq_cn_comment.Codec.Encoder.{
  Encoder, message_ready, size_ready, body_of, run_next, refill, load_msg, copy_out, encode_loop,
  encode, encode_when, encode_fuel,
}

-- The bytes that are still to come of the message in progress.
abbrev pub pending : Encoder → List ℕ
pending e = if e.new_msg_flag then e.to_write else e.to_write ++ body_of e.in_progress

-- A message is in progress, and the step that is due is the one that its state calls for.
pub record IsValid (e : Encoder) : Type 0 where
  pub due : e.new_msg_flag ≡ false → e.next ≡ size_ready

-- A call of `encode` has filled the buffer, or the message is over and nothing of it is left.
abbrev pub Finished : ℕ → List ℕ × Encoder → Type 0
Finished size r = (size ≤ length r.0) ⊎ ((r.1.in_progress ≡ none) × (pending r.1 ≡ []))

module _ (header : Msg → List ℕ) where
  length-zero : (xs : List ℕ) → (length xs == 0) ≡ true → xs ≡ []
  length-zero [] h = refl
  length-zero (x ∷ xs) h = ground arith

  -- The step that runs once the header is out goes on to the body.
  refill-pending :
      (e : Encoder)
      → IsValid e
      → (length e.to_write == 0) && e.new_msg_flag ≡ false
      → (pending (refill header e) ≡ pending e) × IsValid (refill header e)
  unfolding refill
  refill-pending e v h = ground (arith, length-zero e.to_write, append-nil (body_of e.in_progress))

  append_pending :
      (flag : Bool) (out xs ys body : List ℕ)
      → (out ++ xs) ++ (if flag then ys else ys ++ body)
        ≡ out ++ (if flag then xs ++ ys else (xs ++ ys) ++ body)
  append_pending true out xs ys body = append_assoc out xs ys
  append_pending false out xs ys body =
      append_assoc out xs (ys ++ body) ∙ ap (λ t. out ++ t) (sym (append_assoc xs ys body))

  copy_out-pending :
      (size : ℕ) (out : List ℕ) (e : Encoder)
      → let r = copy_out header size out e in r.0 ++ pending r.1 ≡ out ++ pending e
  copy_out-pending size out e =
      append_pending e.new_msg_flag out (take n e.to_write) (drop n e.to_write)
        (body_of e.in_progress)
      ∙ ap (λ t. out ++ (if e.new_msg_flag then t else t ++ body_of e.in_progress))
          (take-append-drop n e.to_write)
    where
      n : ℕ
      n = size - length out

  handed_out :
      (flag : Bool) (xs body : List ℕ)
      → xs ++ (if flag then [] else body) ≡ (if flag then xs else xs ++ body)
  handed_out true xs body = append-nil xs
  handed_out false xs body = refl

  -- Data that fill the buffer are handed out where they are.
  direct_pending :
      (size : ℕ) (own : Bool) (out : List ℕ) (e : Encoder)
      → IsValid e
      → (length e.to_write == 0) && e.new_msg_flag ≡ false
      → (length out == 0) && own && leb size (length (refill header e).to_write) ≡ true
      → ((refill header e).to_write ++ pending (record (refill header e) { to_write = [] })
          ≡ out ++ pending e)
        × IsValid (record (refill header e) { to_write = [] })
  direct_pending size own out e v more direct = (
    handed_out e1.new_msg_flag e1.to_write (body_of e1.in_progress)
        ∙ (refill-pending e v more).0
        ∙ ap (λ t. t ++ pending e) (sym (length-zero out (first _ _ _ direct))),
    record { due = (refill-pending e v more).1.due },
  )
    where
      e1 : Encoder
      e1 = refill header e

      first : (a b c : Bool) → a && b && c ≡ true → a ≡ true
      first a b c h = ground arith

  encode_loop-pending :
      (fuel : ℕ) (own : Bool) (size : ℕ) (out : List ℕ) (e : Encoder)
      → IsValid e
      → let r = encode_loop header fuel own size out e in
        (r.0 ++ pending r.1 ≡ out ++ pending e) × IsValid r.1
  unfolding encode_loop
  encode_loop-pending zero own size out e v = (refl, v)
  encode_loop-pending (suc fuel) own size out e v = elim (Bool-cases (leb size (length out))) [
    | inl full ↦ rw full (refl, v)
    | inr room ↦ rw room (elim (Bool-cases ((length e.to_write == 0) && e.new_msg_flag)) [
      | inl over ↦ rw over (ground (arith, length-zero e.to_write))
      | inr more ↦
          rw more
            (elim (Bool-cases
              ((length out == 0) && own && leb size (length (refill header e).to_write))) [
                | inl direct ↦ rw direct (direct_pending size own out e v more direct)
                | inr copied ↦ rw copied (
                  (encode_loop-pending fuel own size (copy_out header size out (refill header e)).0
                        (copy_out header size out (refill header e)).1
                        (record { due = (refill-pending e v more).1.due })).0
                      ∙ copy_out-pending size out (refill header e)
                      ∙ ap (λ t. out ++ t) (refill-pending e v more).0,
                  (encode_loop-pending fuel own size (copy_out header size out (refill header e)).0
                      (copy_out header size out (refill header e)).1
                      (record { due = (refill-pending e v more).1.due })).1,
                )
              ])
    ])
  ]

  -- Rounds of the loop that are left if the buffer has room.
  abbrev rank : Encoder → ℕ
  rank e =
      if e.new_msg_flag
      then (if length e.to_write == 0 then 1 else 2)
      else (if length e.to_write == 0 then 2 else 3)

  encode_loop-full :
      (fuel : ℕ) (own : Bool) (size : ℕ) (out : List ℕ) (e : Encoder)
      → leb size (length out) ≡ true
      → encode_loop header fuel own size out e ≡ (out, e)
  unfolding encode_loop
  encode_loop-full zero own size out e full = refl
  encode_loop-full (suc fuel) own size out e full = rw full

  finish_step :
      (size : ℕ) (out : List ℕ) (e : Encoder)
      → IsValid e
      → (length e.to_write == 0) && e.new_msg_flag ≡ false
      → leb size (length (copy_out header size out (refill header e)).0) ≡ false
      → rank (copy_out header size out (refill header e)).1 < rank e
  unfolding refill
  finish_step size out e v more room = ground (
    arith,
    length-append out (take (size - length out) (refill header e).to_write),
    length-take (size - length out) (refill header e).to_write,
    length-drop (size - length out) (refill header e).to_write,
  )

  -- With a round for each part of the message, the loop ends with the buffer full or the message
  -- over.
  encode_loop-finishes :
      (fuel : ℕ) (own : Bool) (size : ℕ) (out : List ℕ) (e : Encoder)
      → IsValid e
      → rank e ≤ fuel
      → Finished size (encode_loop header fuel own size out e)
  unfolding encode_loop
  encode_loop-finishes zero own size out e v k = absurd (ground arith)
  encode_loop-finishes (suc fuel) own size out e v k = elim (Bool-cases (leb size (length out))) [
    | inl full ↦ rw full (inl (ground arith))
    | inr room ↦ rw room (elim (Bool-cases ((length e.to_write == 0) && e.new_msg_flag)) [
      | inl over ↦ rw over (inr (refl, ground (arith, length-zero e.to_write)))
      | inr more ↦
          rw more
            (elim (Bool-cases
              ((length out == 0) && own && leb size (length (refill header e).to_write))) [
                | inl direct ↦ rw direct (inl (ground arith))
                | inr copied ↦
                    rw copied
                      (elim (Bool-cases
                        (leb size (length (copy_out header size out (refill header e)).0))) [
                          | inl full ↦
                              subst (λ (r : List ℕ × Encoder). Finished size r)
                                (sym (
                                  encode_loop-full fuel own size
                                    (copy_out header size out (refill header e)).0
                                    (copy_out header size out (refill header e)).1 full))
                                (inl (ground arith))
                          | inr left ↦
                              encode_loop-finishes fuel own size
                                (copy_out header size out (refill header e)).0
                                (copy_out header size out (refill header e)).1
                                (record { due = (refill-pending e v more).1.due })
                                (omega (arith, finish_step size out e v more left))
                        ])
              ])
    ])
  ]

  refill-in_progress : (e : Encoder) → (refill header e).in_progress ≡ e.in_progress
  unfolding refill
  refill-in_progress e = ground arith

  -- The loop leaves no message in progress only when it has handed out all of it.
  encode_loop-over :
      (fuel : ℕ) (own : Bool) (size : ℕ) (out : List ℕ) (e : Encoder) (m : Msg)
      → e.in_progress ≡ some m
      → let r = encode_loop header fuel own size out e in r.1.in_progress ≡ none → pending r.1 ≡ []
  unfolding encode_loop
  encode_loop-over zero own size out e m busy = λ idle. cc
  encode_loop-over (suc fuel) own size out e m busy = elim (Bool-cases (leb size (length out))) [
    | inl full ↦ rw full (λ idle. cc)
    | inr left ↦ rw left (elim (Bool-cases ((length e.to_write == 0) && e.new_msg_flag)) [
      | inl over ↦ rw over (λ idle. ground (arith, length-zero e.to_write))
      | inr more ↦
          rw more
            (elim (Bool-cases
              ((length out == 0) && own && leb size (length (refill header e).to_write))) [
                | inl direct ↦ rw direct (λ idle. cc (refill-in_progress e))
                | inr copied ↦ rw copied (
                    encode_loop-over fuel own size (copy_out header size out (refill header e)).0
                      (copy_out header size out (refill header e)).1 m
                      (refill-in_progress e ∙ busy))
              ])
    ])
  ]

  pub encode-over :
      (own : Bool) (size : ℕ) (e : Encoder) (m : Msg)
      → e.in_progress ≡ some m
      → let r = encode header own size e in r.1.in_progress ≡ none → pending r.1 ≡ []
  unfolding encode
  encode-over own size e m busy =
      subst
        (λ o. let r = encode_when header o own size e in r.1.in_progress ≡ none → pending r.1 ≡ [])
        (sym busy) (encode_loop-over encode_fuel own size [] e m busy)

  encode-some :
      (own : Bool) (size : ℕ) (e : Encoder) (m : Msg)
      → e.in_progress ≡ some m
      → encode header own size e ≡ encode_loop header encode_fuel own size [] e
  unfolding encode
  encode-some own size e m h = ap (λ o. encode_when header o own size e) h

  pub encode-none :
      (own : Bool) (size : ℕ) (e : Encoder)
      → e.in_progress ≡ none
      → encode header own size e ≡ ([], e)
  unfolding encode
  encode-none own size e h = ap (λ o. encode_when header o own size e) h

  -- While a message is in progress, in a valid encoder, each call hands out the next of its bytes, in order; it fills
  -- the buffer, or it ends the message with all its bytes handed out.
  pub encode-pending :
      (own : Bool) (size : ℕ) (e : Encoder) (m : Msg)
      → IsValid e
      → e.in_progress ≡ some m
      → let r = encode header own size e in
        (r.0 ++ pending r.1 ≡ pending e) × Finished size r × IsValid r.1
  encode-pending own size e m v h = rw (encode-some own size e m h) (
    (encode_loop-pending encode_fuel own size [] e v).0,
    encode_loop-finishes encode_fuel own size [] e v (ground arith),
    (encode_loop-pending encode_fuel own size [] e v).1,
  )

  -- What is to come of a message just loaded.
  pub load_msg-pending :
      (m : Msg) (e : Encoder)
      → e.next ≡ message_ready
      → (pending (load_msg header m e) ≡ header m ++ m.body) × IsValid (load_msg header m e)
  unfolding load_msg run_next
  load_msg-pending m e h = ground arith

  pub load_msg-in_progress : (m : Msg) (e : Encoder) → (load_msg header m e).in_progress ≡ some m
  unfolding load_msg run_next
  load_msg-in_progress m e = ground arith
