-- ===== src/Codec/Encoder/Batches.antt =====
-- The batches that the encoder hands out, put together, are the message's bytes.
use zmq_cn_comment.Base.{
  ℕ, ◌+◌, ◌≤◌, ◌≡◌, refl, sym, ap, ◌∙◌, ◌⊎◌, inl, inr, Bool, List, [], ◌∷◌, ◌++◌, none, length,
  Option-cases, append_assoc, append-nil, length-append, arith,
}
use zmq_cn_comment.Message.{Msg}
use zmq_cn_comment.Codec.Encoder.{Encoder, message_ready, load_msg, encode}
use zmq_cn_comment.Codec.Encoder.Loop.{
  pending, IsValid, Finished, encode-pending, encode-over, encode-none, load_msg-pending,
  load_msg-in_progress,
}

module _ (header : Msg → List ℕ) where
  -- The engine asks for one batch after the other.
  pub encode_all : List (Bool × ℕ) → Encoder → List ℕ × Encoder
  encode_all [] e = ([], e)
  encode_all ((own, size) ∷ sizes) e =
      let r = encode header own size e in let rest = encode_all sizes r.1 in (r.0 ++ rest.0, rest.1)

  -- The buffers of these calls together.
  abbrev pub room : List (Bool × ℕ) → ℕ
  room [] = 0
  room ((own, size) ∷ sizes) = size + room sizes

  -- Nothing is in progress, and nothing is left to hand out.
  abbrev IsOver : Encoder → Type 0
  IsOver e = (e.in_progress ≡ none) × (pending e ≡ [])

  encode_all-over :
      (sizes : List (Bool × ℕ)) (e : Encoder) → IsOver e → encode_all sizes e ≡ ([], e)
  unfolding encode_all
  encode_all-over [] e over = refl
  encode_all-over ((own, size) ∷ sizes) e over =
      ap (λ r. let rest = encode_all sizes r.1 in (r.0 ++ rest.0, rest.1))
        (encode-none header own size e over.0)
      ∙ encode_all-over sizes e over

  joined :
      (own : Bool) (size : ℕ) (sizes : List (Bool × ℕ)) (e : Encoder) (r : List ℕ × Encoder)
      → (r.0 ++ pending r.1 ≡ pending e) × Finished size r × IsValid r.1
      → (r.1.in_progress ≡ none → pending r.1 ≡ [])
      → ((e' : Encoder)
          → IsValid e'
          → (e'.in_progress ≡ none → pending e' ≡ [])
          → let t = encode_all sizes e' in
            (t.0 ++ pending t.1 ≡ pending e') × Finished (room sizes) t)
      → let t = encode_all sizes r.1 in
        ((r.0 ++ t.0) ++ pending t.1 ≡ pending e) × Finished (size + room sizes) (r.0 ++ t.0, t.1)
  joined own size sizes e r (all, inl full, v) ended ih = (
    append_assoc r.0 (encode_all sizes r.1).0 (pending (encode_all sizes r.1).1)
        ∙ ap (λ t. r.0 ++ t) (ih r.1 v ended).0
        ∙ all,
    elim (ih r.1 v ended).1 [
      | inl more ↦ inl (omega (arith, length-append r.0 (encode_all sizes r.1).0))
      | inr over ↦ inr over
    ],
  )
  joined own size sizes e r (all, inr over, v) ended ih = (
    append_assoc r.0 (encode_all sizes r.1).0 (pending (encode_all sizes r.1).1)
        ∙ ap (λ t. r.0 ++ t) (ih r.1 v ended).0
        ∙ all,
    inr (
      ap (λ t. t.1.in_progress) (encode_all-over sizes r.1 over) ∙ over.0,
      ap (λ t. pending t.1) (encode_all-over sizes r.1 over) ∙ over.1,
    ),
  )

  encode_all-pending :
      (sizes : List (Bool × ℕ)) (e : Encoder)
      → IsValid e
      → (e.in_progress ≡ none → pending e ≡ [])
      → let r = encode_all sizes e in (r.0 ++ pending r.1 ≡ pending e) × Finished (room sizes) r
  unfolding encode_all
  encode_all-pending [] e v ended = (refl, inl (omega arith))
  encode_all-pending ((own, size) ∷ sizes) e v ended = elim (Option-cases e.in_progress) [
    | inl idle ↦
        let none_left = encode_all-over ((own, size) ∷ sizes) e (idle, ended idle) in
        (
          ap (λ r. r.0 ++ pending r.1) none_left,
          inr (
            ap (λ r. r.1.in_progress) none_left ∙ idle,
            ap (λ r. pending r.1) none_left ∙ ended idle,
          ),
        )
    | inr (m, busy) ↦
        joined own size sizes e (encode header own size e)
          (encode-pending header own size e m v busy) (encode-over header own size e m busy)
          (encode_all-pending sizes)
  ]

  -- Between messages: however the engine sizes its buffers, what it has got so far and what is to come
  -- make up the header and the body of the message that it loaded, in this order; and either it has got
  -- as many bytes as its buffers hold, or the message is over and it has got all of it.
  pub encode_all-load_msg :
      (sizes : List (Bool × ℕ)) (m : Msg) (e : Encoder)
      → e.next ≡ message_ready
      → let r = encode_all sizes (load_msg header m e) in
        (r.0 ++ pending r.1 ≡ header m ++ m.body)
        × ((room sizes ≤ length r.0) ⊎ ((r.1.in_progress ≡ none) × (r.0 ≡ header m ++ m.body)))
  encode_all-load_msg sizes m e h = (
    all,
    elim step.1 [
      | inl full ↦ inl full
      | inr over ↦ inr (
        over.0,
        sym (append-nil _)
            ∙ ap (λ t. (encode_all sizes (load_msg header m e)).0 ++ t) (sym over.1)
            ∙ all,
      )
    ],
  )
    where
      step :
          let r = encode_all sizes (load_msg header m e) in
          (r.0 ++ pending r.1 ≡ pending (load_msg header m e)) × Finished (room sizes) r
      step =
          encode_all-pending sizes (load_msg header m e) (load_msg-pending header m e h).1
            (λ idle. cc (load_msg-in_progress header m e))

      all :
          let r = encode_all sizes (load_msg header m e) in r.0 ++ pending r.1 ≡ header m ++ m.body
      all = step.0 ∙ (load_msg-pending header m e h).0
