-- ===== src/Pipe/Handshake/Control.antt =====
-- What the handlers of an end do to its state, and which commands they send.
use zmq_cn_comment.Base.{
  ◌≡◌, refl, ◌∙◌, ap, Bool, true, false, List, [], ◌∷◌, ◌++◌, append-nil, Option, none, some,
  if◌then◌else◌,
}
use zmq_cn_comment.Message.{Msg}
use zmq_cn_comment.Ypipe.{Ypipe}
use zmq_cn_comment.Ypipe.Spec.{Spec}
use zmq_cn_comment.Ypipe.Refine.{Represents}
use zmq_cn_comment.Pipe.{
  Pipe, State, active, delimiter_received, waiting_for_delimiter, term_ack_sent, term_req_sent1,
  term_req_sent2, Effect, activate_read, pipe_term, pipe_term_ack, send, acknowledge,
  process_delimiter, is_readable, is_term_ack_sent, rollback, ◌>>=◌,
}
use zmq_cn_comment.Pipe.Terminate.{close_out, terminate, process_pipe_term, process_pipe_term_ack}
use zmq_cn_comment.Pipe.Close.{closed, Parts, none_left, rollback_lem, close_out_lem}
use zmq_cn_comment.Pipe.Handshake.{commands}

-- The outbound queue that belongs to a state: none once the end has acknowledged, otherwise one in
-- which the incomplete message has only parts with the more flag.
abbrev pub OutFor : State → Option (Ypipe Msg) → Type 0
OutFor term_ack_sent o = o ≡ none
OutFor term_req_sent2 o = o ≡ none
OutFor _ o = (q : Ypipe Msg) × (s : Spec Msg) × (o ≡ some q) × Represents q s × Parts s.partial

-- The result of a handler: the new state, and the commands sent.
abbrev pub Does : Option Pipe → State → List Effect → Type 0
Does r state cs =
    (p : Pipe) × (r ≡ some p) × (p.state ≡ state) × (commands p.sent ≡ cs) × OutFor state p.out_pipe

commands-append : (es fs : List Effect) → commands (es ++ fs) ≡ commands es ++ commands fs
commands-append [] fs = refl
commands-append (Effect.activate_read ∷ es) fs = commands-append es fs
commands-append (Effect.activate_write n ∷ es) fs = commands-append es fs
commands-append (Effect.hiccup q ∷ es) fs = commands-append es fs
commands-append (Effect.pipe_term ∷ es) fs = ap (λ t. pipe_term ∷ t) (commands-append es fs)
commands-append (Effect.pipe_term_ack ∷ es) fs = ap (λ t. pipe_term_ack ∷ t) (commands-append es fs)
commands-append (Effect.read_activated ∷ es) fs = commands-append es fs
commands-append (Effect.write_activated ∷ es) fs = commands-append es fs
commands-append (Effect.hiccuped ∷ es) fs = commands-append es fs
commands-append (Effect.terminated ∷ es) fs = commands-append es fs

-- A wake-up is no command of the handshake.
commands_woken :
    (asleep : Bool) (es : List Effect)
    → commands (if asleep then es ++ (activate_read ∷ []) else es) ≡ commands es
commands_woken true es = commands-append es (activate_read ∷ []) ∙ append-nil (commands es)
commands_woken false es = refl

-- The end of terminate, in a state that keeps its queue.
close_out-Does :
    (p : Pipe) (q : Ypipe Msg) (s : Spec Msg)
    → (state : State) → p.state ≡ state
    → is_term_ack_sent state ≡ false
    → p.out_pipe ≡ some q
    → Represents q s
    → Parts s.partial
    → (p' : Pipe) × (close_out p ≡ some p')
      × (p'.state ≡ state)
      × (commands p'.sent ≡ commands p.sent)
      × ((q' : Ypipe Msg) × (s' : Spec Msg) × (p'.out_pipe ≡ some q')
          × Represents q' s'
          × Parts s'.partial)
close_out-Does p q s state e live out h parts =
    let (p', done, (q', out', h', kept, quiet, sent)) =
      close_out_lem p q s (ap is_term_ack_sent e ∙ live) out h parts in
    (
      p',
      done,
      kept ∙ e,
      ap commands sent ∙ commands_woken s.asleep p.sent,
      (q', closed s, out', h', none_left),
    )

-- rollback, out_pipe = NULL, and the acknowledgement.
acknowledge-Does :
    (p : Pipe) (q : Ypipe Msg) (s : Spec Msg)
    → p.out_pipe ≡ some q
    → Represents q s
    → Parts s.partial
    → (p' : Pipe) × (acknowledge p ≡ some p')
      × (p'.state ≡ term_ack_sent)
      × (commands p'.sent ≡ commands p.sent ++ (pipe_term_ack ∷ []))
      × (p'.out_pipe ≡ none)
unfolding acknowledge
acknowledge-Does p q s out h parts =
    let (q', done, h') = rollback_lem p q s out h parts in
    (
      record (send pipe_term_ack p) { out_pipe = none; state = term_ack_sent },
      rw done refl,
      refl,
      commands-append p.sent (pipe_term_ack ∷ []),
      refl,
    )

-- Without a queue nothing is written.
close_out_absent :
    (p : Pipe)
    → p.out_pipe ≡ none
    → close_out p ≡ some (record p { out_pipe = none; out_active = false })
unfolding close_out rollback
close_out_absent p out = ap (λ o. close_out (record p { out_pipe = o })) out

-- terminate, by the state.
abbrev pub after_terminate : Bool → State → State × List Effect
after_terminate delay active = (term_req_sent1, pipe_term ∷ [])
after_terminate delay delimiter_received = (term_req_sent1, pipe_term ∷ [])
after_terminate true waiting_for_delimiter = (waiting_for_delimiter, [])
after_terminate false waiting_for_delimiter = (term_ack_sent, pipe_term_ack ∷ [])
after_terminate delay state = (state, [])

-- An end in a state, which has sent nothing since the last handler.
abbrev pub at : State → Pipe → Pipe
at state p = record p { state = state; sent = [] }

pub terminate-Does :
    (delay : Bool) (state : State) (p : Pipe)
    → OutFor state p.out_pipe
    → Does
        (terminate delay (at state p))
        (after_terminate delay state).0
        (after_terminate delay state).1
unfolding terminate
terminate-Does delay active p (q, s, out, h, parts) =
    close_out-Does (record p { delay = delay; sent = pipe_term ∷ []; state = term_req_sent1 }) q s
      term_req_sent1 refl refl out h parts
terminate-Does delay delimiter_received p (q, s, out, h, parts) =
    close_out-Does (record p { delay = delay; sent = pipe_term ∷ []; state = term_req_sent1 }) q s
      term_req_sent1 refl refl out h parts
terminate-Does true waiting_for_delimiter p (q, s, out, h, parts) =
    close_out-Does (record p { delay = true; sent = []; state = waiting_for_delimiter }) q s
      waiting_for_delimiter refl refl out h parts
terminate-Does false waiting_for_delimiter p (q, s, out, h, parts) =
    let (p', done, kept, sent, gone) =
      acknowledge-Does (record (at waiting_for_delimiter p) { delay = false }) q s out h parts in
    (
      record p' { out_pipe = none; out_active = false },
      ap (λ (t : Option Pipe). t >>= close_out) done ∙ close_out_absent p' gone,
      kept,
      sent,
      refl,
    )
terminate-Does delay term_ack_sent p out =
    (record (at term_ack_sent p) { delay = delay }, refl, refl, refl, out)
terminate-Does delay term_req_sent1 p out =
    (record (at term_req_sent1 p) { delay = delay }, refl, refl, refl, out)
terminate-Does delay term_req_sent2 p out =
    (record (at term_req_sent2 p) { delay = delay }, refl, refl, refl, out)

-- process_delimiter, by the state; it is called in two of them.
abbrev pub after_delimiter : State → State × List Effect
after_delimiter waiting_for_delimiter = (term_ack_sent, pipe_term_ack ∷ [])
after_delimiter state = (delimiter_received, [])

pub process_delimiter-Does :
    (state : State) (p : Pipe)
    → OutFor state p.out_pipe
    → is_readable state ≡ true
    → Does (process_delimiter (at state p)) (after_delimiter state).0 (after_delimiter state).1
unfolding process_delimiter
process_delimiter-Does active p out h = (at delimiter_received p, refl, refl, refl, out)
process_delimiter-Does waiting_for_delimiter p (q, s, out, r, parts) h =
    acknowledge-Does (at waiting_for_delimiter p) q s out r parts
process_delimiter-Does delimiter_received p rest h = cc
process_delimiter-Does term_ack_sent p rest h = cc
process_delimiter-Does term_req_sent1 p rest h = cc
process_delimiter-Does term_req_sent2 p rest h = cc

-- process_pipe_term, by the state; it asserts one of three.
abbrev pub after_term : Bool → State → State × List Effect
after_term true active = (waiting_for_delimiter, [])
after_term delay term_req_sent1 = (term_req_sent2, pipe_term_ack ∷ [])
after_term delay state = (term_ack_sent, pipe_term_ack ∷ [])

abbrev pub takes_term : State → Bool
takes_term active = true
takes_term delimiter_received = true
takes_term term_req_sent1 = true
takes_term _ = false

pub process_pipe_term-Does :
    (delay : Bool) (state : State) (p : Pipe)
    → OutFor state p.out_pipe
    → takes_term state ≡ true
    → Does
        (process_pipe_term (record (at state p) { delay = delay }))
        (after_term delay state).0
        (after_term delay state).1
unfolding process_pipe_term
process_pipe_term-Does true active p out h =
    (record (at waiting_for_delimiter p) { delay = true }, refl, refl, refl, out)
process_pipe_term-Does false active p out h = (
  record p { state = term_ack_sent; sent = pipe_term_ack ∷ []; out_pipe = none; delay = false },
  refl,
  refl,
  refl,
  refl,
)
process_pipe_term-Does true delimiter_received p out h = (
  record p { state = term_ack_sent; sent = pipe_term_ack ∷ []; out_pipe = none; delay = true },
  refl,
  refl,
  refl,
  refl,
)
process_pipe_term-Does false delimiter_received p out h = (
  record p { state = term_ack_sent; sent = pipe_term_ack ∷ []; out_pipe = none; delay = false },
  refl,
  refl,
  refl,
  refl,
)
process_pipe_term-Does true term_req_sent1 p out h = (
  record p { state = term_req_sent2; sent = pipe_term_ack ∷ []; out_pipe = none; delay = true },
  refl,
  refl,
  refl,
  refl,
)
process_pipe_term-Does false term_req_sent1 p out h = (
  record p { state = term_req_sent2; sent = pipe_term_ack ∷ []; out_pipe = none; delay = false },
  refl,
  refl,
  refl,
  refl,
)
process_pipe_term-Does delay waiting_for_delimiter p rest h = cc
process_pipe_term-Does delay term_ack_sent p rest h = cc
process_pipe_term-Does delay term_req_sent2 p rest h = cc

-- process_pipe_term_ack, by the state; it asserts one of three.
abbrev pub after_ack : State → List Effect
after_ack term_req_sent1 = pipe_term_ack ∷ []
after_ack state = []

abbrev pub takes_ack : State → Bool
takes_ack term_req_sent1 = true
takes_ack term_ack_sent = true
takes_ack term_req_sent2 = true
takes_ack _ = false

pub process_pipe_term_ack_lem :
    (state : State) (p : Pipe)
    → takes_ack state ≡ true
    → (es : List Effect) × (process_pipe_term_ack (at state p) ≡ some es)
      × (commands es ≡ after_ack state)
unfolding process_pipe_term_ack
process_pipe_term_ack_lem term_req_sent1 p h = (Effect.terminated ∷ pipe_term_ack ∷ [], refl, refl)
process_pipe_term_ack_lem term_ack_sent p h = (Effect.terminated ∷ [], refl, refl)
process_pipe_term_ack_lem term_req_sent2 p h = (Effect.terminated ∷ [], refl, refl)
process_pipe_term_ack_lem active p h = cc
process_pipe_term_ack_lem delimiter_received p h = cc
process_pipe_term_ack_lem waiting_for_delimiter p h = cc
