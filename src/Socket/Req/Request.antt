-- ===== src/Socket/Req/Request.antt =====
-- What a REQ socket sends.
use zmq_cn_comment.Base.{
  ℕ, ◌+◌, ◌%◌, ◌^◌, ◌<◌, ◌≡◌, refl, sym, ap, ap₂, ◌∙◌, Bool, true, false, ◌&&◌, none, some, List,
  [], ◌∷◌, length, if◌then◌else◌,
}
use zmq_cn_comment.Message.{Msg, has_more}
use zmq_cn_comment.Socket.Req.{Req, DealerOps, done, efsm, id_part, part_sent}
use zmq_cn_comment.Socket.Req.Send.{send_part, send_bottom, id_sent, begin, xsend}
use zmq_cn_comment.Socket.Req.Inbox.{Reads}
use zmq_cn_comment.Socket.Req.Outbox.{Writes, next, envelope_if, envelope, begun, send_bottom_lem}

module _ {D : Type 0} (ops : DealerOps D) (p : ℕ) where
  begin_plain :
      (fuel : ℕ) (m : Msg) (r : Req) (d : D)
      → r.request_id_frames_enabled ≡ false
      → begin ops fuel m r d ≡ send_bottom ops fuel m (record r { reply_pipe = none }) d
  unfolding begin
  begin_plain fuel m r d e =
      ap
        (λ b.
          if b
          then id_sent ops fuel m
              (record r { reply_pipe = none; request_id = (r.request_id + 1) % 2 ^ 32 })
              (ops.sendpipe (id_part ((r.request_id + 1) % 2 ^ 32)) d)
          else send_bottom ops fuel m (record r { reply_pipe = none }) d)
        e

  begin_numbered :
      (fuel : ℕ) (m : Msg) (r : Req) (d : D)
      → r.request_id_frames_enabled ≡ true
      → begin ops fuel m r d
        ≡ id_sent ops fuel m
            (record r { reply_pipe = none; request_id = (r.request_id + 1) % 2 ^ 32 })
            (ops.sendpipe (id_part ((r.request_id + 1) % 2 ^ 32)) d)
  unfolding begin
  begin_numbered fuel m r d e =
      ap
        (λ b.
          if b
          then id_sent ops fuel m
              (record r { reply_pipe = none; request_id = (r.request_id + 1) % 2 ^ 32 })
              (ops.sendpipe (id_part ((r.request_id + 1) % 2 ^ 32)) d)
          else send_bottom ops fuel m (record r { reply_pipe = none }) d)
        e

  begun_if :
      {enabled : Bool} (m : Msg) (r : Req)
      → r.receiving_reply ≡ false
      → enabled ≡ r.request_id_frames_enabled
      → part_sent (has_more m) (record r {
        message_begins = false;
        reply_pipe = some p;
        request_id = if enabled then (r.request_id + 1) % 2 ^ 32 else r.request_id;
      })
        ≡ part_sent (has_more m) (begun p r)
  begun_if m r idle e =
      ap₂
        (λ b x. part_sent (has_more m) (record r {
          receiving_reply = b;
          message_begins = false;
          reply_pipe = some p;
          request_id = if x then (r.request_id + 1) % 2 ^ 32 else r.request_id;
        }))
        idle e

  begin_lem :
      (enabled : Bool) (fuel : ℕ) (m : Msg) (r : Req) (d d1 d2 d3 : D) (q : List (Msg × ℕ))
      → r.receiving_reply ≡ false
      → r.request_id_frames_enabled ≡ enabled
      → Writes ops p d (envelope_if enabled r) d1
      → Reads ops d2 d1 q
      → length q < fuel
      → Writes ops p d2 (m ∷ []) d3
      → begin ops fuel m r d ≡ (done, part_sent (has_more m) (begun p r), d3)
  begin_lem false fuel m r d d1 d2 d3 q idle e sends reads lt last =
      begin_plain fuel m r d e
      ∙ send_bottom_lem ops p fuel m (record r { reply_pipe = none }) d d1 d2 d3 q sends reads lt
          last
      ∙ ap (λ s. (done, s, d3)) (begun_if m r idle (sym e))
  begin_lem true fuel m r d d1 d2 d3 q idle e (next {d' = d'} h sends) reads lt last =
      let next_id = (r.request_id + 1) % 2 ^ 32 in
      begin_numbered fuel m r d e
      ∙ ap (id_sent ops fuel m (record r { reply_pipe = none; request_id = next_id })) h
      ∙ send_bottom_lem ops p fuel m (record r { reply_pipe = some p; request_id = next_id }) d' d1
          d2 d3 q sends reads lt last
      ∙ ap (λ s. (done, s, d3)) (begun_if m r idle (sym e))

xsend_begins :
    {D : Type 0} (ops : DealerOps D) (fuel : ℕ) (m : Msg) (r : Req) (d : D)
    → r.receiving_reply ≡ false
    → r.message_begins ≡ true
    → xsend ops fuel m r d ≡ begin ops fuel m r d
unfolding xsend
xsend_begins {D} ops fuel m r d idle begins =
    ap
      (λ b.
        let r1 = if b then record r { receiving_reply = false; message_begins = true } else r in
        if b && r.strict
        then (efsm, r, d)
        else if r1.message_begins
        then begin ops fuel m r1 d
        else send_part ops m r1 d)
      idle
    ∙ ap (λ b. if b then begin ops fuel m r d else send_part ops m r d) begins

-- A REQ socket that awaits no reply and is at the beginning of a request sends the envelope and then
-- the part, in this order, to a pipe that takes them: an empty part, after the next number if requests
-- are numbered. Between the envelope and the part it reads the dealer until nothing is left to
-- read, and drops all of it, such as replies to earlier requests. Nothing else is asked of the dealer; the
-- reply will be taken from this pipe only, and is awaited exactly if the part was the last one. The fuel is
-- for more than all that is read.
pub xsend-Requested :
    {D : Type 0} (ops : DealerOps D) (p fuel : ℕ) (m : Msg) (r : Req) (d d1 d2 d3 : D)
    (q : List (Msg × ℕ))
    → r.receiving_reply ≡ false
    → r.message_begins ≡ true
    → Writes ops p d (envelope r) d1
    → Reads ops d2 d1 q
    → length q < fuel
    → Writes ops p d2 (m ∷ []) d3
    → xsend ops fuel m r d ≡ (done, part_sent (has_more m) (begun p r), d3)
xsend-Requested ops p fuel m r d d1 d2 d3 q idle begins sends reads lt last =
    xsend_begins ops fuel m r d idle begins
    ∙ begin_lem ops p r.request_id_frames_enabled fuel m r d d1 d2 d3 q idle refl sends reads lt
        last
