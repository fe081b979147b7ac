-- ===== src/Pipe/Handshake/Safety.antt =====
-- In every order of events no assertion of the termination fails, and no command goes to an end that
-- has been deleted.
use zmq_cn_comment.Base.{
  ◌≡◌, ◌<◌, refl, ◌∙◌, ap, sym, subst, Bool, true, false, not, ◌||◌, ◌&&◌, inl, inr, List, [], ◌∷◌,
  length-append, Option, none, some, Bool-cases, arith,
}
use zmq_cn_comment.Pipe.{Pipe, active, Effect, pipe_term, pipe_term_ack, is_readable, ◌>>=◌}
use zmq_cn_comment.Pipe.Handshake.{
  End, Event, terminated_by_user, nodelay, deliver, read_delimiter, commands, post,
  writes_delimiter, event,
}
use zmq_cn_comment.Pipe.Handshake.Control.{
  after_terminate, after_delimiter, after_term, after_ack, terminate-Does, process_delimiter-Does,
  process_pipe_term-Does, process_pipe_term_ack_lem,
}
use zmq_cn_comment.Pipe.Handshake.States.{
  allowed_start, alive, readable, nonempty, is_open, terminate_allowed, delimiter_allowed,
  term_allowed, ack_allowed, inbox_command, keeps_queue, keeps_queue-alive,
}
use zmq_cn_comment.Pipe.Handshake.Together.{
  phase, WroteOk, EndOk, rank, Together, Together-sym, settle-Together, told, post-told,
  wrote_terminate, wrote_delimiter, wrote_term, wrote_same, wrote_closed,
}

-- Whether an event is a command that is handled, or the delimiter that is read.
abbrev pub advances : Event → End → End → Bool
advances (terminated_by_user delay) a b = false
advances nodelay a b = false
advances deliver a b = alive (phase a) && nonempty a.inbox
advances read_delimiter a b = readable (phase a) && b.wrote

-- An event happens without a failure and keeps the invariant.
-- One that handles a
-- command or reads the delimiter brings the handshake forward.
abbrev pub Goes : Event → End → End → Type 0
Goes e a b =
    (a' : End) × (b' : End) × (event e a b ≡ some (a', b'))
    × Together a' b'
    × (advances e a b ≡ true → (is_open (phase a') ≡ false) × (rank a' b' < rank a b))

abbrev end : Pipe → List Effect → Bool → End
end p m w = record { pipe = some p; inbox = m; wrote = w }

deliver-Goes :
    (p : Pipe) (m : List Effect) (w : Bool) (b : End)
    → Together (end p m w) b
    → Goes deliver (end p m w) b
unfolding event
deliver-Goes p [] w b t = (end p [] w, b, refl, t, λ e. cc)
deliver-Goes p (Effect.pipe_term ∷ m) w b t =
    let (takes, there, ok, closed, lower) =
      term_allowed p.delay p.state (phase b) m b.inbox t.states in
    let (a', b', done, t', at, left) =
      settle-Together (end p (pipe_term ∷ m) w) b t _ (after_term p.delay p.state).0
        (after_term p.delay p.state).1 m false
        (process_pipe_term-Does p.delay p.state p t.out_a takes) there ok
        (wrote_term p.delay p.state w t.wrote_a takes) in
    (a', b', done, t', λ e. (ap is_open at ∙ closed, omega (arith, left, lower)))
deliver-Goes p (Effect.pipe_term_ack ∷ m) w b t =
    let (takes, there, ok, lower) = ack_allowed p.state (phase b) m b.inbox t.states in
    let (es, done, sent) = process_pipe_term_ack_lem p.state p takes in
    let a' : End = record { pipe = none; inbox = m; wrote = w } in
    let b' : End = told (end p (pipe_term_ack ∷ m) w) b t (after_ack p.state) in
    (
      a',
      b',
      ap (λ (o : Option (List Effect)). o >>= λ es. post (commands es) b >>= λ b'. some (a', b'))
            done
          ∙ ap (λ cs. post cs b >>= λ b'. some (a', b')) sent
          ∙ ap (λ (o : Option End). o >>= λ b'. some (a', b'))
              (post-told (end p (pipe_term_ack ∷ m) w) b t (after_ack p.state) there),
      record { states = ok; out_a = tt; out_b = t.out_b; wrote_a = tt; wrote_b = t.wrote_b },
      λ e. (refl, omega (arith, lower, length-append b.inbox (after_ack p.state))),
    )
deliver-Goes p (c ∷ m) w b t = cc (inbox_command p.state (phase b) c m b.inbox t.states)

read-Goes :
    (p : Pipe) (m : List Effect) (w : Bool) (b : End)
    → Together (end p m w) b
    → Goes read_delimiter (end p m w) b
unfolding event
read-Goes p m w b t = elim (Bool-cases (b.wrote && is_readable p.state)) [
  | inr idle ↦ rw idle (end p m w, b, refl, t, λ e. absurd (ground arith))
  | inl both ↦
      let wrote : b.wrote ≡ true = ground arith in
      let readable : is_readable p.state ≡ true = ground arith in
      let (there, ok, closed, lower) =
        delimiter_allowed p.state (phase b) m b.inbox t.states readable
          (wrote_closed (phase b) b.wrote t.wrote_b wrote) in
      let (a', b', done, t', at, left) =
        settle-Together (end p m w) b t _ (after_delimiter p.state).0 (after_delimiter p.state).1 m
          false (process_delimiter-Does p.state p t.out_a readable) there ok
          (wrote_delimiter p.state w t.wrote_a) in
      (a', b', rw both done, t', λ e. (ap is_open at ∙ closed, omega (arith, left, lower)))
]

gone_does_not : (e : Event) (a b : End) → a.pipe ≡ none → advances e a b ≡ true → ⊥
gone_does_not (terminated_by_user delay) a b o h = cc
gone_does_not nodelay a b o h = cc
gone_does_not deliver a b o h =
    cc (ap alive (ap (λ (o : Option Pipe). elim o [ none ↦ none | some p ↦ some p.state ]) o))
gone_does_not read_delimiter a b o h =
    cc (ap readable (ap (λ (o : Option Pipe). elim o [ none ↦ none | some p ↦ some p.state ]) o))

-- Every event at the first end, whatever the order, happens without a failure.
pub event-Goes :
    (e : Event) (o : Option Pipe) (m : List Effect) (w : Bool) (b : End)
    → let a : End = record { pipe = o; inbox = m; wrote = w } in Together a b → Goes e a b
unfolding event
event-Goes e none m w b t =
    let a : End = record { pipe = none; inbox = m; wrote = w } in
    (a, b, refl, t, λ h. absurd (gone_does_not e a b refl h))
event-Goes (terminated_by_user delay) (some p) m w b t =
    let (there, ok) = terminate_allowed delay p.state (phase b) m b.inbox t.states in
    let (a', b', done, t', at, left) =
      settle-Together (end p m w) b t _ (after_terminate delay p.state).0
        (after_terminate delay p.state).1 m (writes_delimiter delay p.state)
        (terminate-Does delay p.state p t.out_a) there ok
        (wrote_terminate delay p.state w t.wrote_a) in
    (a', b', done, t', λ e. cc)
event-Goes nodelay (some p) m w b t = (
  record { pipe = some (record p { sent = []; delay = false }); inbox = m; wrote = w || false },
  b,
  refl,
  record {
    states = t.states;
    out_a = t.out_a;
    out_b = t.out_b;
    wrote_a = wrote_same (some p.state) w t.wrote_a;
    wrote_b = t.wrote_b;
  },
  λ e. cc,
)
event-Goes deliver (some p) m w b t = deliver-Goes p m w b t
event-Goes read_delimiter (some p) m w b t = read-Goes p m w b t

-- Messages are written and read, and activate_read, activate_write and hiccup sent and handled, between
-- the events: the state stays, and an outbound queue is there if one was, which may be another one.
pub record Traffic (a a' : End) : Type 0 where
  pub same_phase : phase a' ≡ phase a
  pub same_inbox : a'.inbox ≡ a.inbox
  pub same_wrote : a'.wrote ≡ a.wrote
  pub queue : EndOk a'

-- The ends of a pipe that has just been made.
pub record IsNew (a : End) : Type 0 where
  pub no_command : a.inbox ≡ []
  pub not_wrote : a.wrote ≡ false
  pub is_active : phase a ≡ some active
  pub queue : EndOk a

-- Two ends that can be reached: any events at either end, in any order, with any traffic between them.
pub data Reached : End → End → Type 0 where
  begin : {a b : End} → IsNew a → IsNew b → Reached a b
  other : {a b : End} → Reached a b → Reached b a
  traffic : {a b a' : End} → Reached a b → Traffic a a' → Reached a' b
  happens :
      {a b a' b' : End} (e : Event) → Reached a b → event e a b ≡ some (a', b') → Reached a' b'

start-Together : (a b : End) → IsNew a → IsNew b → Together a b
start-Together a b na nb = record {
  states = rw (na.is_active, nb.is_active, na.no_command, nb.no_command) allowed_start;
  out_a = na.queue;
  out_b = nb.queue;
  wrote_a = subst (λ z. WroteOk z a.wrote) (sym na.is_active) na.not_wrote;
  wrote_b = subst (λ z. WroteOk z b.wrote) (sym nb.is_active) nb.not_wrote;
}

Traffic-Together : (a b a' : End) → Together a b → Traffic a a' → Together a' b
Traffic-Together a b a' t f = record {
  states = rw (f.same_phase, f.same_inbox) t.states;
  out_a = f.queue;
  out_b = t.out_b;
  wrote_a = rw (f.same_phase, f.same_wrote) t.wrote_a;
  wrote_b = t.wrote_b;
}

Goes-Together :
    (e : Event) (a b a' b' : End) → Goes e a b → event e a b ≡ some (a', b') → Together a' b'
Goes-Together e a b a' b' (a1, b1, done, t, _) h =
    subst (λ (ab : End × End). Together ab.0 ab.1)
      (ap (λ (o : Option (End × End)). elim o [ none ↦ (a1, b1) | some ab ↦ ab ]) (sym done ∙ h)) t

pub Reached-Together : {a b : End} → Reached a b → Together a b
Reached-Together (begin na nb) = start-Together _ _ na nb
Reached-Together (other r) = Together-sym _ _ (Reached-Together r)
Reached-Together (traffic r f) = Traffic-Together _ _ _ (Reached-Together r) f
Reached-Together (happens {a} {b} {a'} {b'} e r h) =
    Goes-Together e a b a' b' (event-Goes e a.pipe a.inbox a.wrote b (Reached-Together r)) h

-- Whatever has happened at the two ends of a pipe, in whatever order, the next call of terminate or
-- set_nodelay, pipe_term or pipe_term_ack that is handled, or delimiter that is read, at either end, fails no
-- assertion of pipe_t and sends neither of these commands to an end that has been deleted. And while
-- an end has not acknowledged, so that it can still write, read or hiccup and send activate_read,
-- activate_write or hiccup, the other end has not been deleted.
pub event-Reached :
    (e : Event) {a b : End}
    → Reached a b
    → ((a' : End) × (b' : End) × (event e a b ≡ some (a', b')))
      × (not (keeps_queue (phase a)) || alive (phase b) ≡ true)
event-Reached e {a} {b} r =
    let (a', b', done, t, _) = event-Goes e a.pipe a.inbox a.wrote b (Reached-Together r) in
    ((a', b', done), heard (Reached-Together r))
  where
    heard : Together a b → not (keeps_queue (phase a)) || alive (phase b) ≡ true
    heard t = ground (arith, keeps_queue-alive (phase a) (phase b) a.inbox b.inbox t.states)
