-- ===== src/Socket/Rep/Routes.antt =====
-- The envelope of a request, as a REP socket copies it.
use zmq_cn_comment.Base.{
  ℕ, zero, suc, ◌+◌, ◌<◌, ◌≡◌, refl, ap, ◌∙◌, true, false, List, [], ◌∷◌, ◌++◌, length, ◌==◌,
  length-append, arith,
}
use zmq_cn_comment.Message.{Msg, has_more}
use zmq_cn_comment.Socket.Rep.{RouterOps, got, done, copy_labels}

-- A part of the envelope before its end.
abbrev pub IsLabel : Msg → Type 0
IsLabel m = (has_more m ≡ true) × ((length m.body == 0) ≡ false)

pub data Labels : List Msg → Type 0 where
  no_label : Labels []
  one_more : {m : Msg} {ms : List Msg} → IsLabel m → Labels ms → Labels (m ∷ ms)

-- The end of the envelope.
abbrev pub IsEnd : Msg → Type 0
IsEnd m = (has_more m ≡ true) × ((length m.body == 0) ≡ true)

module _ {R : Type 0} (ops : RouterOps R) where
  -- The router hands out parts, and takes each of them back before the next one.
  pub data Copies : R → List Msg → R → Type 0 where
    nothing : {r : R} → Copies r [] r
    next :
        {r r1 r2 e : R} {m : Msg} {ms : List Msg}
        → ops.xrecv r ≡ (got m, r1)
        → ops.xsend m r1 ≡ (done, r2)
        → Copies r2 ms e
        → Copies r (m ∷ ms) e

  -- The router hands out messages without an end of the envelope: it takes back the parts of each but the
  -- last one, and is then told to roll back.
  pub data Malformed : R → List Msg → R → Type 0 where
    no_message : {r : R} → Malformed r [] r
    one_message :
        {r r1 r2 e : R} {bad : List Msg} (ms : List Msg) (m : Msg) (rest : List Msg)
        → bad ≡ ms ++ (m ∷ rest)
        → Labels ms
        → Copies r ms r1
        → ops.xrecv r1 ≡ (got m, r2)
        → has_more m ≡ false
        → Malformed (ops.rollback r2) rest e
        → Malformed r bad e

pub positive : (n : ℕ) → 0 < n → (k : ℕ) × (n ≡ suc k)
positive zero h = absurd (omega arith)
positive (suc k) h = (k, refl)

module _ {R : Type 0} (ops : RouterOps R) where
  -- A part of the envelope is copied.
  label_lem :
      (fuel : ℕ) (r r1 r2 : R) (m : Msg)
      → IsLabel m
      → ops.xrecv r ≡ (got m, r1)
      → ops.xsend m r1 ≡ (done, r2)
      → copy_labels ops (suc fuel) r ≡ copy_labels ops fuel r2
  unfolding copy_labels
  label_lem fuel r r1 r2 m (more, full) e1 e2 = rw (e1, more, e2, full)

  pub end_lem :
      (fuel : ℕ) (r e : R) (m : Msg)
      → IsEnd m
      → Copies ops r (m ∷ []) e
      → copy_labels ops (suc fuel) r ≡ (got m, e)
  unfolding copy_labels
  end_lem fuel r e m (more, full) (next e1 e2 nothing) = rw (e1, more, e2, full)

  -- The last part of a message without an end of the envelope.
  discard_lem :
      (fuel : ℕ) (r r1 : R) (m : Msg)
      → has_more m ≡ false
      → ops.xrecv r ≡ (got m, r1)
      → copy_labels ops (suc fuel) r ≡ copy_labels ops fuel (ops.rollback r1)
  unfolding copy_labels
  discard_lem fuel r r1 m more e1 = rw (e1, more)

  pub labels_lem :
      (fuel : ℕ) (r e : R) (ms : List Msg)
      → Labels ms
      → Copies ops r ms e
      → length ms < fuel
      → (left : ℕ) × (left + length ms ≡ fuel) × (copy_labels ops fuel r ≡ copy_labels ops left e)
  labels_lem fuel r e [] no_label nothing lt = (fuel, omega arith, refl)
  labels_lem zero r e (m ∷ ms) h copies lt = absurd (omega arith)
  labels_lem (suc fuel) r e (m ∷ ms) (one_more l h) (next {r1 = r1} {r2 = r2} e1 e2 copies) lt =
      let (left, n, e3) = labels_lem fuel r2 e ms h copies (omega arith) in
      (left, omega arith, label_lem fuel r r1 r2 m l e1 e2 ∙ e3)

  passed_over :
      (fuel n1 n left : ℕ) (r r1 r2 r3 : R)
      → copy_labels ops fuel r ≡ copy_labels ops n1 r1
      → n1 ≡ suc n
      → copy_labels ops (suc n) r1 ≡ copy_labels ops n r2
      → copy_labels ops n r2 ≡ copy_labels ops left r3
      → copy_labels ops fuel r ≡ copy_labels ops left r3
  passed_over fuel n1 n left r r1 r2 r3 e1 c e2 e3 = e1 ∙ ap (λ k. copy_labels ops k r1) c ∙ e2 ∙ e3

  -- The messages without an end of the envelope are passed over.
  pub malformed_lem :
      (bad : List Msg) (fuel : ℕ) (r e : R)
      → Malformed ops r bad e
      → length bad < fuel
      → (left : ℕ) × (left + length bad ≡ fuel) × (copy_labels ops fuel r ≡ copy_labels ops left e)
  malformed_lem bad fuel r e no_message lt = (fuel, omega arith, refl)
  malformed_lem bad fuel r e (one_message {r1 = r1} {r2 = r2} ms m rest split h copies e1 more bads)
        lt =
      let size : length bad ≡ length ms + (1 + length rest) =
        omega (arith, ap length split, length-append ms (m ∷ rest)) in
      let (n1, c1, e2) = labels_lem fuel r r1 ms h copies (omega arith) in
      let (n, c) = positive n1 (omega arith) in
      let (left, c3, e3) = malformed_lem rest n (ops.rollback r2) e bads (omega arith) in
      (
        left,
        omega arith,
        passed_over fuel n1 n left r r1 (ops.rollback r2) e e2 c (discard_lem n r1 r2 m more e1) e3,
      )
