-- ===== src/Socket/Rep/Envelope.antt =====
-- A REP socket keeps the envelope of a request for the reply.
use zmq_cn_comment.Base.{
  ℕ, ◌+◌, ◌<◌, ◌≡◌, refl, ap, ◌∙◌, Bool, true, false, not, List, [], ◌∷◌, length, if◌then◌else◌,
  arith,
}
use zmq_cn_comment.Errno.{Errno}
use zmq_cn_comment.Message.{Msg, has_more}
use zmq_cn_comment.Socket.Rep.{Rep, RouterOps, got, fail, copy_labels, part_in, after_labels, xrecv}
use zmq_cn_comment.Socket.Rep.Routes.{
  Labels, IsEnd, Copies, Malformed, positive, end_lem, labels_lem, malformed_lem,
}

module _ {R : Type 0} (ops : RouterOps R) where
  -- The end of the envelope has been found.
  copied :
      (fuel : ℕ) (r r1 r2 r3 : R) (bad env : List Msg) (b : Msg)
      → Malformed ops r bad r1
      → Labels env
      → Copies ops r1 env r2
      → IsEnd b
      → Copies ops r2 (b ∷ []) r3
      → length bad + length env + 1 < fuel
      → copy_labels ops fuel r ≡ (got b, r3)
  copied fuel r r1 r2 r3 bad env b bads labels copies stop last lt =
      let (n1, c1, e1) = malformed_lem ops bad fuel r r1 bads (omega arith) in
      let (n2, c2, e2) = labels_lem ops n1 r1 r2 env labels copies (omega arith) in
      let (n, c) = positive n2 (omega arith) in
      e1 ∙ e2 ∙ ap (λ k. copy_labels ops k r2) c ∙ end_lem ops n r2 r3 b stop last

  after_part :
      (more : Bool) (s : Rep)
      → s.sending_reply ≡ false
      → (if more
          then record s { request_begins = false }
          else record s { sending_reply = true; request_begins = true })
        ≡ (record { sending_reply = not more; request_begins = not more })
  after_part true s idle = ap (λ b. (record { sending_reply = b; request_begins = false })) idle
  after_part false s idle = refl

  xrecv_labels :
      (fuel : ℕ) (s : Rep) (r : R)
      → s.sending_reply ≡ false
      → s.request_begins ≡ true
      → xrecv ops fuel s r ≡ after_labels ops s (copy_labels ops fuel r)
  unfolding xrecv
  xrecv_labels fuel s r idle begins =
      ap
        (λ b.
          if b
          then (fail Errno.efsm, s, r)
          else if s.request_begins
          then after_labels ops s (copy_labels ops fuel r)
          else part_in ops s (ops.xrecv r))
        idle
      ∙ ap
          (λ b.
            if b then after_labels ops s (copy_labels ops fuel r) else part_in ops s (ops.xrecv r))
          begins

  -- A REP socket that sends no reply and is at the beginning of a request reads the messages that have
  -- no empty part with the more flag: it gives their parts but the last to the router and makes it roll
  -- back after each such message. Of the next message it gives the parts up to the empty one, and
  -- that one, to the router as the beginning of the reply, and returns the part behind them; the reply may
  -- be sent exactly if this is the last part. Nothing else is asked of the router, which takes what it is given; the fuel
  -- is for more than the parts passed.
  pub xrecv-Labels :
      (fuel : ℕ) (s : Rep) (r r1 r2 r3 r4 : R) (bad env : List Msg) (b m : Msg)
      → s.sending_reply ≡ false
      → s.request_begins ≡ true
      → Malformed ops r bad r1
      → Labels env
      → Copies ops r1 env r2
      → IsEnd b
      → Copies ops r2 (b ∷ []) r3
      → ops.xrecv r3 ≡ (got m, r4)
      → length bad + length env + 1 < fuel
      → xrecv ops fuel s r ≡ (
        got m,
        record { sending_reply = not (has_more m); request_begins = not (has_more m) },
        r4,
      )
  xrecv-Labels fuel s r r1 r2 r3 r4 bad env b m idle begins bads labels copies stop last e lt =
      xrecv_labels fuel s r idle begins
      ∙ ap (after_labels ops s) (copied fuel r r1 r2 r3 bad env b bads labels copies stop last lt)
      ∙ ap (part_in ops (record s { request_begins = false })) e
      ∙ ap (λ t. (got m, t, r4)) (after_part (has_more m) s idle)
