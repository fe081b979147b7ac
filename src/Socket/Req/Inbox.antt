-- ===== src/Socket/Req/Inbox.antt =====
-- What can be read from the pipes of a REQ socket, and the part of it that comes from the reply pipe.
use zmq_cn_comment.Base.{
  ℕ, zero, suc, ◌≤◌, ◌<◌, ◌≡◌, inl, inr, ap, ◌∙◌, true, false, Option, List, [], ◌∷◌, ◌++◌, length,
  if◌then◌else◌, arith, Bool-cases,
}
use zmq_cn_comment.Message.{Msg, has_more}
use zmq_cn_comment.Routing.Fq
use zmq_cn_comment.Socket.Req.{Req, DealerOps, got, again, from_reply_pipe}
use zmq_cn_comment.Socket.Req.Receive.{recv_reply_pipe, skip_rest}

-- What a dealer hands out, one part after the other with its pipe, up to the state in which nothing is
-- left to read.
pub data Reads {D : Type 0} (ops : DealerOps D) (e : D) : D → List (Msg × ℕ) → Type 0 where
  nothing : {d : D} → ops.recvpipe d ≡ (Fq.again, e) → Reads ops e d []
  next :
      {d d' : D} {m : Msg} {p : ℕ} {q : List (Msg × ℕ)}
      → ops.recvpipe d ≡ (Fq.received m p, d')
      → Reads ops e d' q
      → Reads ops e d ((m, p) ∷ q)

-- The messages from the reply pipe.
abbrev pub own : Option ℕ → List (Msg × ℕ) → List Msg
own pipe [] = []
own pipe ((m, p) ∷ q) = if from_reply_pipe pipe p then m ∷ own pipe q else own pipe q

-- The parts of a message, with the more flag on all but the last.
pub data IsWhole : List Msg → Type 0 where
  last : {m : Msg} → has_more m ≡ false → IsWhole (m ∷ [])
  part : {m : Msg} {ms : List Msg} → has_more m ≡ true → IsWhole ms → IsWhole (m ∷ ms)

module _ {D : Type 0} (ops : DealerOps D) (e : D) (r : Req) where
  recv_pulled :
      (fuel : ℕ) (d d' : D) (m : Msg) (p : ℕ)
      → ops.recvpipe d ≡ (Fq.received m p, d')
      → recv_reply_pipe ops (suc fuel) r d
        ≡ (if from_reply_pipe r.reply_pipe p then (got m, d') else recv_reply_pipe ops fuel r d')
  unfolding recv_reply_pipe
  recv_pulled fuel d d' m p h = rw h

  recv_empty :
      (fuel : ℕ) (d : D)
      → ops.recvpipe d ≡ (Fq.again, e)
      → recv_reply_pipe ops (suc fuel) r d ≡ (again, e)
  unfolding recv_reply_pipe
  recv_empty fuel d h = rw h

  -- Nothing from the reply pipe.
  pub recv_none :
      (fuel : ℕ) (d : D) (v : List (Msg × ℕ))
      → Reads ops e d v
      → length v < fuel
      → own r.reply_pipe v ≡ []
      → recv_reply_pipe ops fuel r d ≡ (again, e)
  recv_none zero d v reads lt h = absurd (omega arith)
  recv_none (suc fuel) d [] (nothing h1) lt h = recv_empty fuel d h1
  recv_none (suc fuel) d ((m, p) ∷ q) (next {d' = d1} h1 reads) lt h =
      elim (Bool-cases (from_reply_pipe r.reply_pipe p)) [
        | inl b ↦ cc (rw b at h)
        | inr b ↦
            recv_pulled fuel d d1 m p h1
            ∙ ap (λ t. if t then (got m, d1) else recv_reply_pipe ops fuel r d1) b
            ∙ recv_none fuel d1 q reads (omega arith) (rw b at h)
      ]

  -- The first part from the reply pipe.
  pub recv_some :
      (fuel : ℕ) (d : D) (v : List (Msg × ℕ)) (x : Msg) (xs : List Msg)
      → Reads ops e d v
      → length v < fuel
      → own r.reply_pipe v ≡ x ∷ xs
      → (d' : D) × (w : List (Msg × ℕ)) × (recv_reply_pipe ops fuel r d ≡ (got x, d'))
        × Reads ops e d' w
        × (own r.reply_pipe w ≡ xs)
        × (length w < length v)
  recv_some zero d v x xs reads lt h = absurd (omega arith)
  recv_some (suc fuel) d [] x xs reads lt h = cc
  recv_some (suc fuel) d ((m, p) ∷ q) x xs (next {d' = d1} h1 reads) lt h =
      elim (Bool-cases (from_reply_pipe r.reply_pipe p)) [
        | inl b ↦
            let same : m ∷ own r.reply_pipe q ≡ x ∷ xs = rw b at h in
            (
              d1,
              q,
              recv_pulled fuel d d1 m p h1
                  ∙ ap (λ t. if t then (got m, d1) else recv_reply_pipe ops fuel r d1) b
                  ∙ ap (λ t. (got t, d1)) (cc same),
              reads,
              cc same,
              omega arith,
            )
        | inr b ↦
            let (d', w, e3, reads', e4, e5) =
              recv_some fuel d1 q x xs reads (omega arith) (rw b at h) in
            (
              d',
              w,
              recv_pulled fuel d d1 m p h1
                  ∙ ap (λ t. if t then (got m, d1) else recv_reply_pipe ops fuel r d1) b
                  ∙ e3,
              reads',
              e4,
              omega arith,
            )
      ]

  -- The parts that are left of a message are skipped.
  pub skip_rest_lem :
      (fuel : ℕ) (d : D) (v : List (Msg × ℕ)) (m : Msg) (ms rest : List Msg)
      → IsWhole (m ∷ ms)
      → Reads ops e d v
      → length v < fuel
      → own r.reply_pipe v ≡ ms ++ rest
      → (x : Msg) × (d' : D) × (w : List (Msg × ℕ)) × (skip_rest ops fuel r m d ≡ (got x, d'))
        × Reads ops e d' w
        × (own r.reply_pipe w ≡ rest)
        × (length w ≤ length v)
  unfolding skip_rest
  skip_rest_lem zero d v m ms rest whole reads lt h = absurd (omega arith)
  skip_rest_lem (suc fuel) d v m [] rest (last f) reads lt h =
      (m, d, v, rw f, reads, h, omega arith)
  skip_rest_lem (suc fuel) d v m [] rest (part f whole) reads lt h = elim whole [ ]
  skip_rest_lem (suc fuel) d v m (n ∷ ms) rest (part f whole) reads lt h =
      let (d1, v1, e1, reads1, e2, e3) = recv_some (suc fuel) d v n (ms ++ rest) reads lt h in
      let (x, d', w, e4, reads', e5, e6) =
        skip_rest_lem fuel d1 v1 n ms rest whole reads1 (omega arith) e2 in
      (x, d', w, rw (f, e1) e4, reads', e5, omega arith)
