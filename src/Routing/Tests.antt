-- ===== src/Routing/Tests.antt =====
-- The theorems on the arrays of pipes at four pipes, 10 to 13.
use zmq_cn_comment.Base.{
  ℕ, zero, suc, ◌+◌, ◌-◌, ◌≤◌, ◌<◌, ◌≡◌, ◌≢◌, inl, inr, refl, Bool, true, false, not, ◌&&◌, [], ◌∷◌,
  Option, none, some, ltb, ◌==◌, if◌then◌else◌, arith,
}
use zmq_cn_comment.Message.{Msg, MsgType, is_vsm, init}
use zmq_cn_comment.Routing.Array.{Array, IsValid, Has, size, at, index}
use zmq_cn_comment.Routing.Dist.{
  Dist, distribute, send_to_matching, deactivate, match, reverse_match,
}
use zmq_cn_comment.Routing.Dist
use zmq_cn_comment.Routing.Dist.Retire.{Same, deactivate-Same, pipe_terminated-Same}
use zmq_cn_comment.Routing.Dist.Send.{written_to, logging, distribute-refs, distribute_once}
use zmq_cn_comment.Routing.Ring.{Ring, current_pipe}
use zmq_cn_comment.Routing.Ring
use zmq_cn_comment.Routing.Fq.{Fq, aborted, recvpipe}
use zmq_cn_comment.Routing.Fq
use zmq_cn_comment.Routing.Fq.Receive.{
  offering, queued, Queues, Found, recvpipe-Found, pipe_terminated_aborts,
}
use zmq_cn_comment.Routing.Lb.{Lb, sent, sendpipe}
use zmq_cn_comment.Routing.Lb
use zmq_cn_comment.Routing.Lb.Send.{taking, sendpipe-Found, pipe_terminated_misroutes}
use zmq_cn_comment.Routing.Lb.Send

abbrev four : Array
four = record { items = 10 ∷ 11 ∷ 12 ∷ 13 ∷ []; slot = λ p. p - 10 }

four_knows : (i : ℕ) → i < 4 → index four (at four i) ≡ i
four_knows zero h = refl
four_knows (suc zero) h = refl
four_knows (suc (suc zero)) h = refl
four_knows (suc (suc (suc zero))) h = refl
four_knows (suc (suc (suc (suc i)))) h = absurd (omega arith)

four-IsValid : IsValid four
four-IsValid = record { knows = four_knows }

four-Has_11 : Has four 11
four-Has_11 = (omega arith, refl)

-- Two pipes match, three are active and eligible.
abbrev dist : Dist
dist = record { pipes = four; matching = 2; active = 3; eligible = 3; more = false }

dist-IsOrdered : Dist.IsOrdered dist
dist-IsOrdered = record {
  valid = four-IsValid;
  matching_le = omega arith;
  active_le = omega arith;
  eligible_le = omega arith;
  settled = λ e. refl;
}

abbrev shared : Msg
shared = record { type = MsgType.lmsg; flags = 1; body = 1 ∷ 2 ∷ [] }

-- Pipe 10 takes no message.
abbrev not_10 : ℕ → Bool
not_10 p = not (p == 10)

distribute_once_example :
    let s = distribute (logging not_10) shared dist [] in
    (written_to 11 s.world ≡ (if ltb (index dist.pipes 11) dist.matching then shared ∷ [] else []))
    × (ltb (index s.dist.pipes 11) s.dist.matching
        ≡ (ltb (index dist.pipes 11) dist.matching && not_10 11))
distribute_once_example = distribute_once not_10 shared 11 dist dist-IsOrdered four-Has_11

distribute-refs_example :
    let s = distribute (logging not_10) shared dist [] in
    Dist.IsOrdered s.dist
    × (s.msg ≡ init)
    × (s.refs ≡ (if is_vsm shared then 0 else s.dist.matching))
distribute-refs_example = distribute-refs (logging not_10) shared dist [] dist-IsOrdered

deactivate-Same_example :
    Dist.IsOrdered (deactivate 11 dist)
    × (((deactivate 11 dist).eligible ≤ index (deactivate 11 dist).pipes 11)
        × Has (deactivate 11 dist).pipes 11)
    × ((q : ℕ) → Has dist.pipes q → q ≢ 11 → Same dist (deactivate 11 dist) q)
deactivate-Same_example = deactivate-Same 11 dist dist-IsOrdered four-Has_11 (omega arith)

pipe_terminated-Same_example :
    Dist.IsOrdered (Dist.pipe_terminated 11 dist)
    × (size (Dist.pipe_terminated 11 dist).pipes + 1 ≡ size dist.pipes)
    × ((q : ℕ)
        → Has dist.pipes q
        → q ≢ 11
        → Has (Dist.pipe_terminated 11 dist).pipes q × Same dist (Dist.pipe_terminated 11 dist) q)
pipe_terminated-Same_example = pipe_terminated-Same 11 dist dist-IsOrdered four-Has_11

-- Three pipes are active, and the last of them is current.
abbrev ring : Ring
ring = record { pipes = four; active = 3; current = 2 }

ring-IsOrdered : Ring.IsOrdered ring
ring-IsOrdered = record {
  valid = four-IsValid;
  active_le = omega arith;
  current_in = inl (omega arith);
}

-- The first pipe is current.
abbrev ring_first : Ring
ring_first = record { pipes = four; active = 3; current = 0 }

ring_first-IsOrdered : Ring.IsOrdered ring_first
ring_first-IsOrdered = record {
  valid = four-IsValid;
  active_le = omega arith;
  current_in = inr refl;
}

-- A message with only pipe 12 to read from.
abbrev only_12 : ℕ → Option Msg
only_12 p = if p == 12 then some shared else none

abbrev reader : Fq
reader = record { ring = ring_first; last_in = none; more = false }

-- Only pipe 12 has messages.
abbrev queues : Queues
queues p = if p == 12 then shared ∷ shared ∷ [] else []

recvpipe-Found_example : let r = recvpipe queued reader queues in Found queues reader.ring r.0 r.2
recvpipe-Found_example = recvpipe-Found reader queues ring_first-IsOrdered refl

-- A message from pipe 12 is in transit.
abbrev reader_transit : Fq
reader_transit = record { ring = ring; last_in = some 12; more = true }

pipe_terminated_aborts_example :
    (recvpipe (offering only_12) (Fq.pipe_terminated 11 reader_transit) tt).0 ≡ aborted
pipe_terminated_aborts_example =
    pipe_terminated_aborts only_12 11 reader_transit ring-IsOrdered four-Has_11 refl refl
      (omega arith) (omega arith) refl

abbrev sender : Lb
sender = record { ring = ring; more = false; dropping = false }

sendpipe-Found_example :
    let r = sendpipe (Lb.Send.logging not_10) shared sender [] in
    Lb.Send.Found not_10 shared [] sender.ring r.0 r.2
sendpipe-Found_example = sendpipe-Found not_10 shared [] sender ring-IsOrdered refl refl

-- A message to pipe 12 is in transit.
abbrev sender_transit : Lb
sender_transit = record { ring = ring; more = true; dropping = false }

pipe_terminated_misroutes_example :
    (q : ℕ) × (q ≢ current_pipe sender_transit.ring)
    × Has (Lb.pipe_terminated 11 sender_transit).ring.pipes (current_pipe sender_transit.ring)
    × ((sendpipe (taking (λ k. true)) shared (Lb.pipe_terminated 11 sender_transit) tt).0
        ≡ sent (some q))
pipe_terminated_misroutes_example =
    pipe_terminated_misroutes shared 11 sender_transit ring-IsOrdered four-Has_11 refl refl refl
      (omega arith) (omega arith)
