-- ===== src/Socket/Tests.antt =====
-- The theorems on the sockets of requests and replies on concrete messages and pipes.
use zmq_cn_comment.Base.{
  ℕ, ◌≡◌, ◌↔◌, refl, Bool, true, false, Option, none, some, List, [], ◌∷◌, ◌==◌, if◌then◌else◌,
  arith,
}
use zmq_cn_comment.Errno.{Errno}
use zmq_cn_comment.Message.{Msg, MsgType, has_more}
use zmq_cn_comment.Routing.Array
use zmq_cn_comment.Routing.Ring.{Ring}
use zmq_cn_comment.Routing.Fq
use zmq_cn_comment.Routing.Ring
use zmq_cn_comment.Routing.Lb.{Lb}
use zmq_cn_comment.Routing.Lb
use zmq_cn_comment.Socket.Dealer.{Dealer}
use zmq_cn_comment.Socket.Dealer as DealerSocket
use zmq_cn_comment.Socket.Network.{World, network}
use zmq_cn_comment.Socket.Router.Ops.{dealer_ops}
use zmq_cn_comment.Socket.Session.{fail, bottom, push_msg, push_all}
use zmq_cn_comment.Socket.Session
use zmq_cn_comment.Socket.Session.Replies.{sink, frames, Replies}
use zmq_cn_comment.Socket.Session.Accepted.{push_all-accepts}
use zmq_cn_comment.Socket.Session.Again.{push_msg_again}
use zmq_cn_comment.Socket.Req.{Req, DealerOps, done, id_part, bottom_part, part_sent}
use zmq_cn_comment.Socket.Req.Send.{xsend}
use zmq_cn_comment.Socket.Req.Receive.{xrecv}
use zmq_cn_comment.Socket.Req.Inbox.{Reads, nothing, next, last, part}
use zmq_cn_comment.Socket.Req.Outbox.{Writes, envelope, begun}
use zmq_cn_comment.Socket.Req.Outbox
use zmq_cn_comment.Socket.Req.Round.{AreWhole, no_message, message, first_reply}
use zmq_cn_comment.Socket.Req.Reply.{Answers, xrecv-first_reply}
use zmq_cn_comment.Socket.Req.Request.{xsend-Requested}

abbrev part_of : ℕ → List ℕ → Msg
part_of flags body = record { type = MsgType.vsm; flags = flags; body = body }

-- An empty part, and a body of one part.
push_all-accepts_example :
    let r = push_all sink (part_of 1 [] ∷ part_of 0 (104 ∷ []) ∷ []) bottom [] in
    ((r.0 ≡ Session.done) × (r.1 ≡ bottom))
    ↔ Replies (frames (part_of 1 [] ∷ part_of 0 (104 ∷ []) ∷ []))
push_all-accepts_example = push_all-accepts (part_of 1 [] ∷ part_of 0 (104 ∷ []) ∷ [])

-- A pipe that takes nothing.
abbrev full_pipe : Msg → List Msg → Bool × List Msg
full_pipe m w = (false, w)

push_msg_again_example :
    let r = push_msg full_pipe (id_part 7) bottom [] in
    (r.0 ≡ fail Errno.eagain) × ((push_msg sink (id_part 7) r.1 []).0 ≡ fail Errno.efault)
push_msg_again_example = push_msg_again full_pipe sink (id_part 7) [] [] (refl, refl) refl

-- A socket that numbers its requests and has sent the first one to pipe 7.
abbrev awaiting : Req
awaiting = record {
  receiving_reply = true;
  message_begins = true;
  reply_pipe = some 7;
  request_id_frames_enabled = true;
  request_id = 1;
  strict = true;
}

-- A reply to another request, a message from another pipe, and the reply.
abbrev replies : List (List Msg)
replies =
    (id_part 0 ∷ bottom_part ∷ part_of 0 (1 ∷ []) ∷ [])
    ∷ (id_part 1 ∷ bottom_part ∷ part_of 0 (2 ∷ []) ∷ [])
    ∷ []

abbrev both_pipes : Ring
both_pipes = record {
  pipes = record { items = 7 ∷ 3 ∷ []; slot = λ p. if p == 7 then 0 else 1 };
  active = 2;
  current = 0;
}

abbrev send_side : Bool → Lb
send_side more = record { ring = both_pipes; more = more; dropping = false }

-- A dealer with the two pipes: whether parts are under way, the current pipe to read from and the last
-- one, what is left in the pipes, and what was written.
abbrev dealer_at :
    Bool → List (ℕ × Msg) → Bool → ℕ → Option ℕ → List Msg → List Msg → Dealer × World
dealer_at sending log receiving current last_in seven three = (
  record {
    fq = record {
      ring = record both_pipes { current = current };
      last_in = last_in;
      more = receiving;
    };
    lb = send_side sending;
    probe_router = false;
  },
  record { seven = seven; three = three; log = log },
)

abbrev first_message : List Msg → List Msg
first_message rest = id_part 0 ∷ bottom_part ∷ part_of 0 (1 ∷ []) ∷ rest

abbrev second_message : List Msg
second_message = id_part 1 ∷ bottom_part ∷ part_of 0 (2 ∷ []) ∷ []

-- Pipe 7 has both messages, pipe 3 one that is no reply.
abbrev full : Bool → List (ℕ × Msg) → Dealer × World
full sending log =
    dealer_at sending log false 0 none (first_message second_message) (part_of 0 [] ∷ [])

-- Nothing is left to read.
abbrev empty : Bool → List (ℕ × Msg) → Dealer × World
empty sending log = (
  record {
    fq =
        (Fq.recvpipe network
          (record { ring = record both_pipes { current = 1 }; last_in = some 7; more = false })
          (record { seven = []; three = []; log = log })).1;
    lb = send_side sending;
    probe_router = false;
  },
  record { seven = []; three = []; log = log },
)

abbrev ops : DealerOps (Dealer × World)
ops = dealer_ops network

-- What the dealer hands out.
abbrev traffic : List (Msg × ℕ)
traffic =
    (id_part 0, 7)
    ∷ (bottom_part, 7)
    ∷ (part_of 0 (1 ∷ []), 7)
    ∷ (part_of 0 [], 3)
    ∷ (id_part 1, 7)
    ∷ (bottom_part, 7)
    ∷ (part_of 0 (2 ∷ []), 7)
    ∷ []

full-Reads :
    (sending : Bool) (log : List (ℕ × Msg))
    → Reads ops (empty sending log) (full sending log) traffic
unfolding DealerSocket.recvpipe Fq.recvpipe Fq.recv_loop Fq.received_part has_more
    Ring.deactivate_current Array.swap
full-Reads sending log =
    next
      {d' = dealer_at sending log true 0 none (bottom_part ∷ part_of 0 (1 ∷ []) ∷ second_message)
        (part_of 0 [] ∷ [])}
      refl
      (next
        {d' = dealer_at sending log true 0 none (part_of 0 (1 ∷ []) ∷ second_message)
          (part_of 0 [] ∷ [])}
        refl
        (next {d' = dealer_at sending log false 1 (some 7) second_message (part_of 0 [] ∷ [])} refl
          (next {d' = dealer_at sending log false 0 (some 3) second_message []} refl (
            next
              {d' = dealer_at sending log true 0 (some 3) (bottom_part ∷ part_of 0 (2 ∷ []) ∷ [])
                []}
              refl
              (next {d' = dealer_at sending log true 0 (some 3) (part_of 0 (2 ∷ []) ∷ []) []} refl
                (next {d' = dealer_at sending log false 1 (some 7) [] []} refl (nothing refl)))))))

replies_whole : AreWhole replies
unfolding has_more
replies_whole =
    message (part refl (part refl (last refl)))
      (message (part refl (part refl (last refl))) no_message)

xrecv-first_reply_example :
    Answers ops
      (empty false [])
      awaiting
      (first_reply awaiting replies)
      (xrecv ops 8 awaiting (full false []))
xrecv-first_reply_example =
    xrecv-first_reply ops (empty false []) awaiting 8 replies (full false []) traffic refl refl
      replies_whole (full-Reads false []) (omega arith) refl

-- A socket that has received its reply; another message is still there.
abbrev idle : Req
idle = record awaiting { receiving_reply = false }

abbrev request : Msg
request = part_of 0 (5 ∷ [])

-- The envelope is written to pipe 7, then the request.
abbrev after_id : List (ℕ × Msg)
after_id = (7, id_part 2) ∷ []

abbrev after_envelope : List (ℕ × Msg)
after_envelope = (7, bottom_part) ∷ after_id

abbrev sent_dealer : Dealer × World
sent_dealer = (ops.sendpipe request (empty true after_envelope)).1

envelope-Writes : Writes ops 7 (full false []) (envelope idle) (full true after_envelope)
unfolding DealerSocket.sendpipe Lb.sendpipe Lb.send_loop Lb.sent_part has_more
envelope-Writes = Outbox.next {d' = full true after_id} refl (Outbox.next refl Outbox.nothing)

request-Writes : Writes ops 7 (empty true after_envelope) (request ∷ []) sent_dealer
unfolding DealerSocket.sendpipe Lb.sendpipe Lb.send_loop Lb.sent_part has_more
request-Writes = Outbox.next refl Outbox.nothing

xsend-Requested_example :
    xsend ops 8 request idle (full false [])
    ≡ (done, part_sent (has_more request) (begun 7 idle), sent_dealer)
xsend-Requested_example =
    xsend-Requested ops 7 8 request idle (full false []) (full true after_envelope)
      (empty true after_envelope) sent_dealer traffic refl refl envelope-Writes
      (full-Reads true after_envelope) (omega arith) request-Writes
