-- ===== src/Socket/Session/Again.antt =====
-- A part that the full pipe refuses.
use zmq_cn_comment.Base.{
  ◌≡◌, refl, ap, subst, sym, Bool, true, false, length, ◌==◌, ==_iff, arith, inr,
}
use zmq_cn_comment.Errno.{Errno}
use zmq_cn_comment.Message.{Msg, is_command}
use zmq_cn_comment.Socket.Session.{
  Rc, fail, State, bottom, request_id, id_size, session_push, push_msg, written,
}
use zmq_cn_comment.Socket.Session.Replies.{IsId, is_command-flags}

module _ {W : Type 0} (write : Msg → W → Bool × W) (m : Msg) (w : W) where
  session_push_full :
      is_command m ≡ false
      → (write m w).0 ≡ false
      → session_push write m w ≡ (fail Errno.eagain, (write m w).1)
  unfolding session_push
  session_push_full e full = rw e (go (write m w) full)
    where
      go : (p : Bool × W) → p.0 ≡ false → written write p ≡ (fail Errno.eagain, p.1)
      go (true, w') h = cc
      go (false, w') h = refl

  push_id_full :
      IsId m
      → (write m w).0 ≡ false
      → push_msg write m bottom w ≡ (fail Errno.eagain, request_id, (write m w).1)
  unfolding push_msg
  push_id_full (f, n) full =
      let e = is_command-flags m (inr f) in
      rw (e, (==_iff m.flags 1).1 f, (==_iff (length m.body) id_size).1 n, session_push_full e full)

  push_id_after : IsId m → push_msg write m request_id w ≡ (fail Errno.efault, request_id, w)
  unfolding push_msg
  push_id_after (f, n) =
      let zero : (length m.body == 0) ≡ false = ground arith in
      rw (is_command-flags m (inr f), (==_iff m.flags 1).1 f, zero)

-- With CORRELATE, a part with the number of a request that the full pipe refuses is refused with
-- EAGAIN; but the state has moved on, and when the engine hands over the same part again, it is
-- refused with EFAULT, whatever room there is in the pipe.
pub push_msg_again :
    {W : Type 0} (write write' : Msg → W → Bool × W) (m : Msg) (w w' : W)
    → IsId m
    → (write m w).0 ≡ false
    → let r = push_msg write m bottom w in
      (r.0 ≡ fail Errno.eagain) × ((push_msg write' m r.1 w').0 ≡ fail Errno.efault)
push_msg_again {W} write write' m w w' id full =
    subst
      (λ (r : Rc × State × W).
        (r.0 ≡ fail Errno.eagain) × ((push_msg write' m r.1 w').0 ≡ fail Errno.efault))
      (sym (push_id_full write m w id full)) (refl, ap (λ r. r.0) (push_id_after write' m w' id))
