-- ===== src/Pipe/Close.antt =====
-- Termination of an end: what the other end still gets.
use zmq_cn_comment.Base.{
  ℕ, zero, suc, ◌≤◌, ◌≡◌, refl, ap, Bool, true, false, not, List, [], ◌∷◌, ◌++◌, some, length,
  init_of, last_of, ◌==◌, length-init_of, length-append, if◌then◌else◌, Bool-cases, inl, inr, arith,
}
use zmq_cn_comment.Message.{Msg, has_more, init_delimiter}
use zmq_cn_comment.Ypipe.{Ypipe}
use zmq_cn_comment.Ypipe
use zmq_cn_comment.Ypipe.Spec.{Spec}
use zmq_cn_comment.Ypipe.Spec
use zmq_cn_comment.Ypipe.Refine.{Represents, write-Represents, unwrite-Agrees, flush-Agrees}
use zmq_cn_comment.Pipe.{
  Pipe, activate_read, pipe_term, active, term_req_sent1, rollback_loop, is_term_ack_sent, rollback,
  flush, send,
}
use zmq_cn_comment.Pipe.Terminate.{close_out, terminate}

-- All messages of a list have the more flag.
pub data Parts : List Msg → Type 0 where
  none_left : Parts []
  one_more : {m : Msg} {ms : List Msg} → has_more m ≡ true → Parts ms → Parts (m ∷ ms)

Parts-last :
    (m : Msg) (ms : List Msg)
    → Parts (m ∷ ms)
    → (l : Msg) × (last_of (m ∷ ms) ≡ some l) × (has_more l ≡ true) × Parts (init_of (m ∷ ms))
Parts-last m [] (one_more e h) = (m, refl, e, none_left)
Parts-last m (m' ∷ ms) (one_more e h) =
    let (l, last, more, rest) = Parts-last m' ms h in (l, last, more, one_more e rest)

rollback_loop_cases :
    (fuel : ℕ) (ms : List Msg) (q : Ypipe Msg) (s : Spec Msg)
    → Represents q (record s { partial = ms })
    → Parts ms
    → length ms ≤ fuel
    → (q' : Ypipe Msg) × (rollback_loop fuel q ≡ some q')
      × Represents q' (record s { partial = [] })
unfolding rollback_loop
rollback_loop_cases zero [] q s h parts enough = (q, refl, h)
rollback_loop_cases zero (m ∷ ms) q s h parts enough = absurd (omega arith)
rollback_loop_cases (suc fuel) [] q s h parts enough =
    let a = unwrite-Agrees q (record s { partial = [] }) h in (q, rw (a.0, rollback_loop) refl, h)
rollback_loop_cases (suc fuel) (m ∷ ms) q s h parts enough =
    let a = unwrite-Agrees q (record s { partial = m ∷ ms }) h in
    let (l, last, more, rest) = Parts-last m ms parts in
    let (q', done, h') =
      rollback_loop_cases fuel (init_of (m ∷ ms)) (Ypipe.unwrite q).1 s a.1 rest
        (omega (arith, length-init_of (m ∷ ms))) in
    (q', rw (a.0, last, more, rollback_loop) done, h')

-- Nothing to take back is no work; otherwise the parts written of an incomplete message are taken back.
pub rollback_lem :
    (p : Pipe) (q : Ypipe Msg) (s : Spec Msg)
    → p.out_pipe ≡ some q
    → Represents q s
    → Parts s.partial
    → (q' : Ypipe Msg) × (rollback p ≡ some (record p { out_pipe = some q' }))
      × Represents q' (record s { partial = [] })
unfolding rollback
rollback_lem p q s e h parts =
    let (q', done, h') = rollback_loop_cases (length q.items) s.partial q s h parts (
      omega (
        arith,
        ap length h.items_eq,
        length-append s.readable (s.complete ++ s.partial),
        length-append s.complete s.partial,
      )) in
    (q', rw (e, done) refl, h')

-- The queue once an end has been closed: everything complete can be read, and then the delimiter.
abbrev pub closed : Spec Msg → Spec Msg
closed s = record {
  readable = s.readable ++ (s.complete ++ (init_delimiter ∷ []));
  complete = [];
  partial = [];
  asleep = false;
}

-- The delimiter is written and flushed.
flush_delimiter :
    (q : Ypipe Msg) (s : Spec Msg)
    → Represents q (record s { partial = [] })
    → ((Ypipe.flush (Ypipe.write init_delimiter false q)).0 ≡ not s.asleep)
      × Represents (Ypipe.flush (Ypipe.write init_delimiter false q)).1 (closed s)
flush_delimiter q s h =
    let s1 = Spec.write init_delimiter false (record s { partial = [] }) in
    let new : (length s1.complete == 0) ≡ false =
      ground (arith, length-append s.complete (init_delimiter ∷ [])) in
    let a =
      flush-Agrees (Ypipe.write init_delimiter false q) s1
        (write-Represents init_delimiter false q (record s { partial = [] }) h) in
    rw new at a

-- What close_out leaves, with the queue of the other end.
abbrev pub Closed : Pipe → Pipe → Spec Msg → Type 0
Closed p p' s =
    (q' : Ypipe Msg) × (p'.out_pipe ≡ some q')
    × Represents q' (closed s)
    × (p'.state ≡ p.state)
    × (p'.out_active ≡ false)
    × (p'.sent ≡ (if s.asleep then p.sent ++ (activate_read ∷ []) else p.sent))

pub close_out_lem :
    (p : Pipe) (q : Ypipe Msg) (s : Spec Msg)
    → is_term_ack_sent p.state ≡ false
    → p.out_pipe ≡ some q
    → Represents q s
    → Parts s.partial
    → (p' : Pipe) × (close_out p ≡ some p') × Closed p p' s
unfolding close_out flush
close_out_lem p q s live out h parts =
    let (q1, done, h1) = rollback_lem (record p { out_active = false }) q s out h parts in
    let (woken, h2) = flush_delimiter q1 s h1 in
    let q2 = (Ypipe.flush (Ypipe.write init_delimiter false q1)).1 in
    let base = record p { out_active = false; out_pipe = some q2 } in
    elim (Bool-cases s.asleep) [
      | inl a ↦ (
        send activate_read base,
        rw (done, live, woken, a) refl,
        (q2, refl, h2, refl, refl, rw a refl),
      )
      | inr a ↦ (base, rw (done, live, woken, a) refl, (q2, refl, h2, refl, refl, rw a refl))
    ]

-- terminate on an active end whose incomplete message has only parts with the more flag succeeds: it
-- asks the peer to terminate, and wakes it up if it sleeps. The peer will read all complete messages,
-- flushed or not, then the delimiter, and nothing of the incomplete message.
pub terminate-Closed :
    (delay : Bool) (p : Pipe) (q : Ypipe Msg) (s : Spec Msg)
    → p.state ≡ active
    → p.out_pipe ≡ some q
    → Represents q s
    → Parts s.partial
    → (p' : Pipe) × (terminate delay p ≡ some p')
      × Closed (record p { state = term_req_sent1; sent = p.sent ++ (pipe_term ∷ []) }) p' s
unfolding terminate
terminate-Closed delay p q s live out h parts =
    let (p', done, rest) =
      close_out_lem
        (record p { state = term_req_sent1; sent = p.sent ++ (pipe_term ∷ []); delay = delay }) q s
        refl out h parts in
    (p', rw (live, terminate) done, rest)
