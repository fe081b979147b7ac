-- ===== src/Pipe/Handshake/Hiccup.antt =====
-- pipe_t::process_hiccup (src/pipe.cpp) at the other end of a pipe.
use zmq_cn_comment.Base.{◌≡◌, refl, sym, subst, Bool, true, List, Option, none, some}
use zmq_cn_comment.Pipe.{
  Pipe, State, active, delimiter_received, waiting_for_delimiter, term_ack_sent, term_req_sent1,
  term_req_sent2, Effect,
}
use zmq_cn_comment.Message.{Msg}
use zmq_cn_comment.Ypipe.{Ypipe}
use zmq_cn_comment.Pipe.Terminate.{process_hiccup}
use zmq_cn_comment.Pipe.Handshake.{End}
use zmq_cn_comment.Pipe.Handshake.Control.{OutFor}
use zmq_cn_comment.Pipe.Handshake.States.{keeps_queue, unhandled, unhandled-keeps_queue}
use zmq_cn_comment.Pipe.Handshake.Together.{phase, EndOk}
use zmq_cn_comment.Pipe.Handshake.Safety.{Reached, Reached-Together}

queue_of :
    (x : State) (o : Option (Ypipe Msg))
    → OutFor x o
    → keeps_queue (some x) ≡ true
    → (q : Ypipe Msg) × (o ≡ some q)
queue_of active o (q, s, out, h, parts) k = (q, out)
queue_of delimiter_received o (q, s, out, h, parts) k = (q, out)
queue_of waiting_for_delimiter o (q, s, out, h, parts) k = (q, out)
queue_of term_req_sent1 o (q, s, out, h, parts) k = (q, out)
queue_of term_ack_sent o out k = cc
queue_of term_req_sent2 o out k = cc

process_hiccup_takes :
    (queue q : Ypipe Msg) (p : Pipe)
    → (p' : Pipe) × (process_hiccup queue (record p { out_pipe = some q }) ≡ some p')
unfolding process_hiccup
process_hiccup_takes queue q p = (_, refl)

process_hiccup_lem :
    (queue : Ypipe Msg) (p : Pipe)
    → OutFor p.state p.out_pipe
    → keeps_queue (some p.state) ≡ true
    → (p' : Pipe) × (process_hiccup queue p ≡ some p')
process_hiccup_lem queue p out k =
    let (q, e) = queue_of p.state p.out_pipe out k in
    subst (λ o. (p' : Pipe) × (process_hiccup queue (record p { out_pipe = o }) ≡ some p')) (sym e)
      (process_hiccup_takes queue q p)

-- Whatever has happened at the two ends of a pipe, in whatever order: where a hiccup that an end sent while
-- it was active may still wait for the other end, this end has not been deleted, and the handler of
-- hiccup fails no assertion there, whatever queue it is given.
pub process_hiccup-Reached :
    (queue : Ypipe Msg) {a b : End}
    → Reached a b
    → unhandled (phase a) b.inbox ≡ true
    → (p : Pipe) × (p' : Pipe) × (b.pipe ≡ some p) × (process_hiccup queue p ≡ some p')
process_hiccup-Reached queue {a} {b} r waits =
    let t = Reached-Together r in
    there b.pipe b.inbox b.wrote t.out_b
      (unhandled-keeps_queue (phase a) (phase b) a.inbox b.inbox t.states waits)
  where
    there :
        (o : Option Pipe) (m : List Effect) (w : Bool)
        → let e : End = record { pipe = o; inbox = m; wrote = w } in
          EndOk e
          → keeps_queue (phase e) ≡ true
          → (p : Pipe) × (p' : Pipe) × (o ≡ some p) × (process_hiccup queue p ≡ some p')
    there none m w out k = cc
    there (some p) m w out k =
        let (p', done) = process_hiccup_lem queue p out k in (p, p', refl, done)
