-- ===== src/Socket/Req/Outbox.antt =====
-- What a REQ socket sends while its pipe takes what it is given.
use zmq_cn_comment.Base.{
  ℕ, zero, suc, ◌+◌, ◌%◌, ◌^◌, ◌<◌, ◌≡◌, Bool, false, some, List, [], ◌∷◌, length, if◌then◌else◌,
  arith,
}
use zmq_cn_comment.Message.{Msg, has_more}
use zmq_cn_comment.Routing.Lb
use zmq_cn_comment.Socket.Req.{Req, DealerOps, done, id_part, bottom_part, part_sent}
use zmq_cn_comment.Socket.Req.Send.{drain, send_part, send_bottom}
use zmq_cn_comment.Socket.Req.Inbox.{Reads}
use zmq_cn_comment.Socket.Req.Inbox

-- A dealer takes parts, one after the other, each for the pipe `p`.
pub data Writes {D : Type 0} (ops : DealerOps D) (p : ℕ) : D → List Msg → D → Type 0 where
  nothing : {d : D} → Writes ops p d [] d
  next :
      {d d' e : D} {m : Msg} {ms : List Msg}
      → ops.sendpipe m d ≡ (Lb.sent (some p), d')
      → Writes ops p d' ms e
      → Writes ops p d (m ∷ ms) e

-- The envelope of a request.
abbrev pub envelope_if : Bool → Req → List Msg
envelope_if numbered r =
    if numbered then id_part ((r.request_id + 1) % 2 ^ 32) ∷ bottom_part ∷ [] else bottom_part ∷ []

abbrev pub envelope : Req → List Msg
envelope r = envelope_if r.request_id_frames_enabled r

-- The socket once the request has begun.
abbrev pub begun : ℕ → Req → Req
begun p r = record r {
  receiving_reply = false;
  message_begins = false;
  reply_pipe = some p;
  request_id = if r.request_id_frames_enabled then (r.request_id + 1) % 2 ^ 32 else r.request_id;
}

module _ {D : Type 0} (ops : DealerOps D) (p : ℕ) where
  -- Whatever can be read is eaten.
  drain_lem :
      (fuel : ℕ) (e d : D) (q : List (Msg × ℕ))
      → Reads ops e d q
      → length q < fuel
      → drain ops fuel d ≡ (done, e)
  unfolding drain
  drain_lem zero e d q reads lt = absurd (omega arith)
  drain_lem (suc fuel) e d [] (Inbox.nothing h) lt = rw h
  drain_lem (suc fuel) e d ((m, s) ∷ q) (Inbox.next {d' = d1} h reads) lt =
      rw h (drain_lem fuel e d1 q reads (omega arith))

  -- The last step, after the envelope.
  send_part_lem :
      (m : Msg) (r : Req) (d d' : D)
      → Writes ops p d (m ∷ []) d'
      → send_part ops m r d ≡ (done, part_sent (has_more m) r, d')
  unfolding send_part
  send_part_lem m r d d' (next h nothing) = rw h

  -- The empty part and what follows.
  pub send_bottom_lem :
      (fuel : ℕ) (m : Msg) (r : Req) (d d1 d2 d3 : D) (q : List (Msg × ℕ))
      → Writes ops p d (bottom_part ∷ []) d1
      → Reads ops d2 d1 q
      → length q < fuel
      → Writes ops p d2 (m ∷ []) d3
      → send_bottom ops fuel m r d ≡ (
        done,
        part_sent (has_more m) (record r { reply_pipe = some p; message_begins = false }),
        d3,
      )
  send_bottom_lem fuel m r d d1 d2 d3 q (next h nothing) reads lt last = rw h (
      rw (drain_lem fuel d2 d1 q reads lt)
        (send_part_lem m (record r { reply_pipe = some p; message_begins = false }) d2 d3 last))
