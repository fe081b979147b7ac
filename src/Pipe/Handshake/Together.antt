-- ===== src/Pipe/Handshake/Together.antt =====
-- The invariant of the two ends of a pipe, and that a handler keeps it.
use zmq_cn_comment.Base.{
  ℕ, ◌≡◌, ◌+◌, length, refl, ◌∙◌, ap, sym, subst, Bool, true, false, ◌||◌, List, [], ◌∷◌, ◌++◌,
  append-nil, length-append, Option, none, some, arith,
}
use zmq_cn_comment.Pipe.{
  Pipe, State, active, delimiter_received, waiting_for_delimiter, term_ack_sent, term_req_sent1,
  term_req_sent2, Effect, ◌>>=◌,
}
use zmq_cn_comment.Pipe.Handshake.{End, post, writes_delimiter, settle}
use zmq_cn_comment.Pipe.Handshake.Control.{
  OutFor, Does, after_terminate, after_delimiter, after_term, takes_term,
}
use zmq_cn_comment.Pipe.Handshake.States.{allowed, weight, is_open, reaches, allowed_sym}

-- The state of an end, none once it is deleted.
abbrev pub phase : End → Option State
phase e = elim e.pipe [ none ↦ none | some p ↦ some p.state ]

-- An end that is open has not written the delimiter, and one that asked for termination has.
abbrev pub WroteOk : Option State → Bool → Type 0
WroteOk (some active) w = w ≡ false
WroteOk (some term_req_sent1) w = w ≡ true
WroteOk _ w = Unit {0}

abbrev pub EndOk : End → Type 0
EndOk e = elim e.pipe [ none ↦ Unit {0} | some p ↦ OutFor p.state p.out_pipe ]

abbrev pub rank : End → End → ℕ
rank a b = weight (phase a) + length a.inbox + (weight (phase b) + length b.inbox)

-- The invariant of two ends.
pub record Together (a b : End) : Type 0 where
  pub states : allowed (phase a) (phase b) a.inbox b.inbox ≡ true
  pub out_a : EndOk a
  pub out_b : EndOk b
  pub wrote_a : WroteOk (phase a) a.wrote
  pub wrote_b : WroteOk (phase b) b.wrote

pub Together-sym : (a b : End) → Together a b → Together b a
Together-sym a b t = record {
  states = allowed_sym (phase a) (phase b) a.inbox b.inbox t.states;
  out_a = t.out_b;
  out_b = t.out_a;
  wrote_a = t.wrote_b;
  wrote_b = t.wrote_a;
}

-- The other end gets the commands.
pub post_lem :
    (cs : List Effect) (o : Option Pipe) (inbox : List Effect) (wrote : Bool)
    → let b : End = record { pipe = o; inbox = inbox; wrote = wrote } in
      reaches cs (phase b) ≡ true → post cs b ≡ some (record b { inbox = inbox ++ cs })
post_lem [] o inbox wrote h =
    ap (λ t. some (record { pipe = o; inbox = t; wrote = wrote })) (sym (append-nil inbox))
post_lem (c ∷ cs) none inbox wrote h = cc
post_lem (c ∷ cs) (some p) inbox wrote h = refl

module _ (a b : End) (t : Together a b) where
  -- The other end, once it has got commands.
  abbrev pub told : List Effect → End
  told cs = record b { inbox = b.inbox ++ cs }

  pub post-told : (cs : List Effect) → reaches cs (phase b) ≡ true → post cs b ≡ some (told cs)
  post-told cs h = post_lem cs b.pipe b.inbox b.wrote h

  -- An end handles something: it moves to another state and sends commands, and its inbox is what is
  -- left.
  pub settle-Together :
      (r : Option Pipe) (x : State) (cs m : List Effect) (wrote : Bool)
      → Does r x cs
      → reaches cs (phase b) ≡ true
      → allowed (some x) (phase b) m (b.inbox ++ cs) ≡ true
      → WroteOk (some x) (a.wrote || wrote)
      → (a' : End) × (b' : End) × ((r >>= λ p'. settle (record a { inbox = m }) wrote p' b)
          ≡ some (a', b'))
        × Together a' b'
        × (phase a' ≡ some x)
        × (rank a' b'
            ≡ weight (some x) + length m + (weight (phase b) + (length b.inbox + length cs)))
  settle-Together r x cs m wrote (p', done, state, sent, out) there ok w =
      let a' : End = record { pipe = some p'; inbox = m; wrote = a.wrote || wrote } in
      (
        a',
        told cs,
        ap (λ (o : Option Pipe). o >>= λ p'. settle (record a { inbox = m }) wrote p' b) done
            ∙ ap (λ t. post t b >>= λ b'. some (a', b')) sent
            ∙ ap (λ (o : Option End). o >>= λ b'. some (a', b')) (post-told cs there),
        record {
          states = subst (λ z. allowed (some z) (phase b) m (b.inbox ++ cs) ≡ true) (sym state) ok;
          out_a = subst (λ z. OutFor z p'.out_pipe) (sym state) out;
          out_b = t.out_b;
          wrote_a = subst (λ z. WroteOk (some z) (a.wrote || wrote)) (sym state) w;
          wrote_b = t.wrote_b;
        },
        ap some state,
        omega (arith, ap (λ z. weight (some z)) state, length-append b.inbox cs),
      )

pub wrote_terminate :
    (delay : Bool) (x : State) (w : Bool)
    → WroteOk (some x) w
    → WroteOk (some (after_terminate delay x).0) (w || writes_delimiter delay x)
wrote_terminate delay active w h = ground arith
wrote_terminate delay delimiter_received w h = ground arith
wrote_terminate true waiting_for_delimiter w h = tt
wrote_terminate false waiting_for_delimiter w h = tt
wrote_terminate delay term_ack_sent w h = tt
wrote_terminate delay term_req_sent1 w h = ground arith
wrote_terminate delay term_req_sent2 w h = tt

pub wrote_delimiter :
    (x : State) (w : Bool) → WroteOk (some x) w → WroteOk (some (after_delimiter x).0) (w || false)
wrote_delimiter waiting_for_delimiter w h = tt
wrote_delimiter x w h = tt

pub wrote_term :
    (delay : Bool) (x : State) (w : Bool)
    → WroteOk (some x) w
    → takes_term x ≡ true
    → WroteOk (some (after_term delay x).0) (w || false)
wrote_term true active w h e = tt
wrote_term false active w h e = tt
wrote_term true delimiter_received w h e = tt
wrote_term false delimiter_received w h e = tt
wrote_term true term_req_sent1 w h e = tt
wrote_term false term_req_sent1 w h e = tt
wrote_term delay waiting_for_delimiter w h e = cc
wrote_term delay term_ack_sent w h e = cc
wrote_term delay term_req_sent2 w h e = cc

pub wrote_same : (y : Option State) (w : Bool) → WroteOk y w → WroteOk y (w || false)
wrote_same y true h = h
wrote_same y false h = h

-- Who has written the delimiter is no longer open.
pub wrote_closed : (y : Option State) (w : Bool) → WroteOk y w → w ≡ true → is_open y ≡ false
wrote_closed none w h e = refl
wrote_closed (some active) w h e = cc
wrote_closed (some delimiter_received) w h e = refl
wrote_closed (some waiting_for_delimiter) w h e = refl
wrote_closed (some term_ack_sent) w h e = refl
wrote_closed (some term_req_sent1) w h e = refl
wrote_closed (some term_req_sent2) w h e = refl
