-- ===== src/Socket/Rep/Tests.antt =====
-- The theorems on rep_t and router_t on concrete messages and pipes.
use zmq_cn_comment.Base.{
  ℕ, ◌≡◌, refl, Bool, true, false, not, Option, none, some, List, [], ◌∷◌, ◌++◌, arith,
}
use zmq_cn_comment.Message.{Msg, MsgType, has_more, init, is_routing_id, type_of_size}
use zmq_cn_comment.Routing.Pipes.{Pipes}
use zmq_cn_comment.Routing.Ring.{Ring}
use zmq_cn_comment.Routing.Fq
use zmq_cn_comment.Socket.Network.{World, network}
use zmq_cn_comment.Socket.Rep.{RouterOps, got, start, xrecv}
use zmq_cn_comment.Socket.Rep.Routes.{
  Copies, nothing, next, Labels, no_label, one_more, IsEnd, Malformed, no_message, one_message,
}
use zmq_cn_comment.Socket.Rep.Envelope.{xrecv-Labels}
use zmq_cn_comment.Socket.Req.{is_some}
use zmq_cn_comment.Socket.Router.Ops.{router_ops}
use zmq_cn_comment.Socket.Router.Receive
use zmq_cn_comment.Socket.Req.Inbox.{IsWhole, last, part}
use zmq_cn_comment.Socket.Router.{Router, RouterPipes, OutPipe, rollback}
use zmq_cn_comment.Socket.Router.Route.{
  xsend_all, answers, all_done, write_all, rollback_drops, xsend_all-write_all,
}
use zmq_cn_comment.Socket.Router

abbrev part_of : ℕ → List ℕ → Msg
part_of flags body = record { type = MsgType.vsm; flags = flags; body = body }

abbrev one_pipe : Ring
one_pipe = record { pipes = record { items = 7 ∷ []; slot = λ p. 0 }; active = 1; current = 0 }

abbrev router_pipes : RouterPipes World
router_pipes = record { io = network; routing_id = λ p. p ∷ []; terminate = λ p delay w. w }

abbrev ops : RouterOps (Router × World)
ops = router_ops router_pipes 2

-- A router that knows pipe 7 under the routing id 7: the pipe last read from, whether a message is being
-- read, what was prefetched, the pipe of the message being read and whether parts of it were handed out, the pipe of
-- the message being sent, what is left in the pipe, and what was written.
abbrev router_at :
    Option ℕ
    → Bool
    → Bool
    → Msg
    → Option ℕ
    → Bool
    → Option ℕ
    → List Msg
    → List (ℕ × Msg)
    → Router × World
router_at last_in receiving prefetched m current_in more_in current_out queue log = (
  record Router.start {
    fq = record { ring = one_pipe; last_in = last_in; more = receiving };
    prefetched = prefetched;
    prefetched_msg = m;
    routing_id_sent = true;
    current_in = current_in;
    more_in = more_in;
    current_out = current_out;
    more_out = is_some current_out;
    out_pipes = (7 ∷ [], record { pipe = 7; active = true }) ∷ [];
  },
  record { seven = queue; three = []; log = log },
)

-- The routing id of the pipe, a label, the empty part and a body.
abbrev id : Msg
id = part_of 1 (7 ∷ [])

abbrev label : ℕ → Msg
label n = part_of 1 (n ∷ [])

abbrev bottom : Msg
bottom = part_of 1 []

abbrev body : Msg
body = part_of 0 (5 ∷ [])

abbrev no_envelope : Msg
no_envelope = part_of 0 (9 ∷ [])

abbrev good : List Msg
good = label 2 ∷ bottom ∷ body ∷ []

-- At the beginning, behind the message without an envelope, behind the label and behind the empty part.
abbrev at_start : Router × World
at_start = router_at none false false init none false none (label 1 ∷ no_envelope ∷ good) []

abbrev after_bad : Router × World
after_bad = router_at (some 7) false false (label 1) none false none good []

abbrev written : List (ℕ × Msg)
written = (7, label 2) ∷ []

abbrev after_label : Router × World
after_label =
    router_at (some 7) true false (label 2) (some 7) true (some 7) (bottom ∷ body ∷ []) written

abbrev after_bottom : Router × World
after_bottom =
    router_at (some 7) true false (label 2) (some 7) true (some 7) (body ∷ [])
      ((7, bottom) ∷ written)

abbrev at_end : Router × World
at_end = router_at (some 7) false false (label 2) none false (some 7) [] ((7, bottom) ∷ written)

bad-Copies : Copies ops at_start (id ∷ label 1 ∷ []) (
    router_at none true false
      (label 1)
      (some 7)
      true
      (some 7)
      (no_envelope ∷ good)
      ((7, label 1) ∷ []))
unfolding Receive.xrecv Receive.next_message Router.xsend Router.first_part Router.next_part
    Router.rollback Fq.recvpipe Fq.recv_loop Fq.received_part has_more is_routing_id type_of_size
bad-Copies =
    next {r1 = router_at none true true (label 1) (some 7) false none (no_envelope ∷ good) []}
      {r2 = router_at none true true (label 1) (some 7) false (some 7) (no_envelope ∷ good) []} refl
      refl
      (next
        {r1 = router_at none true false (label 1) (some 7) true (some 7) (no_envelope ∷ good) []}
        refl refl nothing)

bad-Malformed : Malformed ops at_start (id ∷ label 1 ∷ no_envelope ∷ []) after_bad
unfolding Receive.xrecv Receive.next_message Router.xsend Router.first_part Router.next_part
    Router.rollback Fq.recvpipe Fq.recv_loop Fq.received_part has_more is_routing_id type_of_size
bad-Malformed =
    one_message
      {r2 = router_at (some 7) false false (label 1) none false (some 7) good ((7, label 1) ∷ [])}
      (id ∷ label 1 ∷ []) no_envelope [] refl
      (one_more (refl, refl) (one_more (refl, refl) no_label)) bad-Copies refl refl no_message

envelope-Copies : Copies ops after_bad (id ∷ label 2 ∷ []) after_label
unfolding Receive.xrecv Receive.next_message Router.xsend Router.first_part Router.next_part
    Router.rollback Fq.recvpipe Fq.recv_loop Fq.received_part has_more is_routing_id type_of_size
envelope-Copies =
    next {r1 = router_at (some 7) true true (label 2) (some 7) false none (bottom ∷ body ∷ []) []}
      {r2 = router_at (some 7) true true (label 2) (some 7) false (some 7) (bottom ∷ body ∷ []) []}
      refl refl
      (next
        {r1 = router_at (some 7) true false (label 2) (some 7) true (some 7) (bottom ∷ body ∷ [])
          []}
        refl refl nothing)

bottom-Copies : Copies ops after_label (bottom ∷ []) after_bottom
unfolding Receive.xrecv Receive.next_message Router.xsend Router.first_part Router.next_part
    Router.rollback Fq.recvpipe Fq.recv_loop Fq.received_part has_more is_routing_id type_of_size
bottom-Copies =
    next {r1 = router_at (some 7) true false (label 2) (some 7) true (some 7) (body ∷ []) written}
      refl refl nothing

body_read : ops.xrecv after_bottom ≡ (got body, at_end)
unfolding Receive.xrecv Receive.next_message Router.xsend Router.first_part Router.next_part
    Router.rollback Fq.recvpipe Fq.recv_loop Fq.received_part has_more is_routing_id type_of_size
body_read = refl

envelope-Labels : Labels (id ∷ label 2 ∷ [])
unfolding has_more
envelope-Labels = one_more (refl, refl) (one_more (refl, refl) no_label)

bottom-IsEnd : IsEnd bottom
unfolding has_more
bottom-IsEnd = (refl, refl)

xrecv-Labels_example : xrecv ops 7 start at_start ≡ (
  got body,
  record { sending_reply = not (has_more body); request_begins = not (has_more body) },
  at_end,
)
xrecv-Labels_example =
    xrecv-Labels ops 7 start at_start after_bad after_label after_bottom at_end
      (id ∷ label 1 ∷ no_envelope ∷ []) (id ∷ label 2 ∷ []) bottom body refl refl bad-Malformed
      envelope-Labels envelope-Copies bottom-IsEnd bottom-Copies body_read (omega arith)

-- What has been written to each pipe.
abbrev Log : Type 0
Log = List (ℕ × Msg)

abbrev logging : Pipes Log
logging = record {
  write = λ p m w. (true, w ++ ((p, m) ∷ []));
  flush = λ p w. w;
  rollback = λ p w. [];
  check_write = λ p w. (true, w);
  read = λ p w. (none, w);
  check_read = λ p w. (false, w);
  check_hwm = λ p w. true;
}

abbrev pipes : RouterPipes Log
pipes = record { io = logging; routing_id = λ p. p ∷ []; terminate = λ p delay w. w }

-- A router that knows pipe 4 under the routing id 65.
abbrev router : Router
router = record Router.start { out_pipes = (65 ∷ [], record { pipe = 4; active = true }) ∷ [] }

abbrev reply_parts : List Msg
reply_parts = part_of 1 [] ∷ part_of 0 (5 ∷ []) ∷ []

reply_parts-IsWhole : IsWhole reply_parts
unfolding has_more
reply_parts-IsWhole = part refl (last refl)

id_more : has_more (part_of 1 (65 ∷ [])) ≡ true
unfolding has_more
id_more = refl

xsend_all-write_all_example :
    xsend_all pipes (part_of 1 (65 ∷ []) ∷ reply_parts) router []
    ≡ (record router { more_out = false; current_out = none }, write_all pipes 4 reply_parts [])
xsend_all-write_all_example =
    xsend_all-write_all pipes (part_of 1 (65 ∷ [])) reply_parts (record { pipe = 4; active = true })
      router [] (λ m w. refl) refl refl refl id_more reply_parts-IsWhole refl refl

-- The pipe of the message under way was full.
abbrev stuck : Router
stuck = record router { more_out = true }

rollback_drops_example :
    let r = rollback pipes stuck [] in
    (xsend_all pipes (part_of 1 (65 ∷ []) ∷ reply_parts) r.0 r.1
      ≡ (record stuck { more_out = false }, []))
    × (answers pipes (part_of 1 (65 ∷ []) ∷ reply_parts) r.0 r.1
        ≡ all_done pipes (part_of 1 (65 ∷ []) ∷ reply_parts))
rollback_drops_example =
    rollback_drops pipes stuck [] (part_of 1 (65 ∷ []) ∷ reply_parts) refl refl refl
      (part id_more reply_parts-IsWhole)
