-- ===== src/Socket/Router/Route.antt =====
-- Where the router sends a message.
use zmq_cn_comment.Base.{
  ℕ, ◌≡◌, refl, ap, ◌∙◌, Bool, true, false, not, ◌&&◌, Option, none, some, List, [], ◌∷◌, length,
  if◌then◌else◌, ◌==◌, arith, if_cases,
}
use zmq_cn_comment.Message.{Msg, has_more}
use zmq_cn_comment.Socket.Rep.{Sent, done}
use zmq_cn_comment.Socket.Req.Inbox.{IsWhole, last, part}
use zmq_cn_comment.Socket.Router.{
  Router, RouterPipes, OutPipe, lookup_out_pipe, refused, choose_pipe, first_part, after_write,
  write_part, next_part, reset_more, xsend, rollback_out, rollback,
}

-- Between messages no pipe is chosen: this is what the assertion in xsend asks.
abbrev pub Settled : Router → Type 0
Settled s = s.more_out ≡ false → s.current_out ≡ none

module _ {W : Type 0} (pipes : RouterPipes W) where
  choose_pipe-Settled :
      (id : List ℕ) (o : Option OutPipe) (s : Router) (w : W)
      → s.more_out ≡ true
      → s.current_out ≡ none
      → Settled (choose_pipe pipes id o s w).1
  choose_pipe-Settled id o s w more unset = ground arith

  first_part-Settled :
      (m : Msg) (s : Router) (w : W)
      → s.more_out ≡ false
      → Settled s
      → Settled (first_part pipes m s w).1
  unfolding first_part
  first_part-Settled m s w idle h =
      if_cases (λ (o : Sent × Router × W). Settled o.1) (has_more m)
        (λ e.
          choose_pipe-Settled m.body (lookup_out_pipe m.body s.out_pipes)
            (record s { more_out = true }) w refl (h idle))
        (λ e. h)

  after_write-Settled : (p : ℕ) (s : Router) (r : Bool × W) → Settled (after_write pipes p s r).1
  after_write-Settled p s (false, w) = λ e. refl
  after_write-Settled p s (true, w) =
      if_cases (λ (o : Sent × Router × W). Settled o.1) s.more_out (λ e e'. cc) (λ e e'. refl)

  write_part-Settled :
      (o : Option ℕ) (m : Msg) (s : Router) (w : W)
      → s.current_out ≡ o
      → Settled (write_part pipes o m s w).1
  write_part-Settled none m s w e = λ h. e
  write_part-Settled (some p) m s w e =
      if_cases (λ (o : Sent × Router × W). Settled o.1) (s.raw_socket && (length m.body == 0))
        (λ t e'. refl) (λ t. after_write-Settled p s (pipes.io.write p m w))

  next_part-Settled : (m : Msg) (s : Router) (w : W) → Settled (next_part pipes m s w).1
  unfolding next_part
  next_part-Settled m s w = write_part-Settled s.current_out _ _ w refl

  -- xsend leaves no pipe chosen unless a message is under way, so that its assertion does not fail in
  -- the next call.
  pub xsend-Settled : (m : Msg) (s : Router) (w : W) → Settled s → Settled (xsend pipes m s w).1
  unfolding xsend
  xsend-Settled m s w h =
      if_cases (λ (o : Sent × Router × W). Settled o.1) s.more_out (λ e. next_part-Settled m s w)
        (λ e. first_part-Settled m s w e h)

  -- The parts one after the other; the state after the last one.
  abbrev pub xsend_all : List Msg → Router → W → Router × W
  xsend_all [] s w = (s, w)
  xsend_all (m ∷ ms) s w = let r = xsend pipes m s w in xsend_all ms r.1 r.2

  -- What the calls answer, one after the other.
  abbrev pub answers : List Msg → Router → W → List Sent
  answers [] s w = []
  answers (m ∷ ms) s w = let r = xsend pipes m s w in r.0 ∷ answers ms r.1 r.2

  -- As many calls that succeed.
  abbrev pub all_done : List Msg → List Sent
  all_done [] = []
  all_done (m ∷ ms) = done ∷ all_done ms

  next_part_plain :
      (m : Msg) (s : Router) (w : W)
      → s.option_raw ≡ false
      → next_part pipes m s w
        ≡ write_part pipes s.current_out m (record s { more_out = has_more m }) w
  unfolding next_part
  next_part_plain m s w e =
      ap
        (λ b.
          write_part pipes s.current_out (if b then reset_more m else m)
            (record s { more_out = has_more (if b then reset_more m else m) }) w)
        e

  xsend-next_part :
      (m : Msg) (s : Router) (w : W)
      → s.more_out ≡ true
      → s.option_raw ≡ false
      → xsend pipes m s w ≡ write_part pipes s.current_out m (record s { more_out = has_more m }) w
  unfolding xsend
  xsend-next_part m s w e plain =
      ap (λ b. if b then next_part pipes m s w else first_part pipes m s w) e
      ∙ next_part_plain m s w plain

  xsend_dropped :
      (m : Msg) (s : Router) (w : W)
      → s.more_out ≡ true
      → s.current_out ≡ none
      → s.option_raw ≡ false
      → xsend pipes m s w ≡ (done, record s { more_out = has_more m }, w)
  xsend_dropped m s w e unset plain =
      xsend-next_part m s w e plain
      ∙ ap (λ o. write_part pipes o m (record s { more_out = has_more m }) w) unset

  -- The parts of a message for which no pipe was chosen.
  xsend_all_dropped :
      (ms : List Msg) (s : Router) (w : W)
      → IsWhole ms
      → s.more_out ≡ true
      → s.current_out ≡ none
      → s.option_raw ≡ false
      → xsend_all ms s w ≡ (record s { more_out = false }, w)
  xsend_all_dropped [] s w whole e unset plain = elim whole [ ]
  xsend_all_dropped (m ∷ []) s w (last f) e unset plain =
      ap (λ r. (r.1, r.2)) (xsend_dropped m s w e unset plain)
      ∙ ap (λ b. (record s { more_out = b }, w)) f
  xsend_all_dropped (m ∷ ms) s w (part f whole) e unset plain =
      ap (λ r. xsend_all ms r.1 r.2) (xsend_dropped m s w e unset plain)
      ∙ xsend_all_dropped ms (record s { more_out = has_more m }) w whole f unset plain

  answers_dropped :
      (ms : List Msg) (s : Router) (w : W)
      → IsWhole ms
      → s.more_out ≡ true
      → s.current_out ≡ none
      → s.option_raw ≡ false
      → answers ms s w ≡ all_done ms
  answers_dropped [] s w whole e unset plain = elim whole [ ]
  answers_dropped (m ∷ []) s w (last f) e unset plain =
      ap (λ r. r.0 ∷ []) (xsend_dropped m s w e unset plain)
  answers_dropped (m ∷ ms) s w (part f whole) e unset plain =
      ap (λ r. r.0 ∷ answers ms r.1 r.2) (xsend_dropped m s w e unset plain)
      ∙ ap (λ t. done ∷ t)
          (answers_dropped ms (record s { more_out = has_more m }) w whole f unset plain)

  rollback_none : (s : Router) (w : W) → s.current_out ≡ none → rollback pipes s w ≡ (s, w)
  unfolding rollback
  rollback_none s w e = ap (λ o. rollback_out pipes o s w) e

  -- On a socket that is not raw, if a message is under way for which no pipe was found, or only one
  -- that is full, rollback does not end it: the parts of the next message, whatever pipe its first part
  -- names, are taken for the rest of it, and dropped: each call of xsend succeeds, and no pipe is
  -- touched.
  pub rollback_drops :
      (s : Router) (w : W) (ms : List Msg)
      → s.more_out ≡ true
      → s.current_out ≡ none
      → s.option_raw ≡ false
      → IsWhole ms
      → let r = rollback pipes s w in
        (xsend_all ms r.0 r.1 ≡ (record s { more_out = false }, w))
        × (answers ms r.0 r.1 ≡ all_done ms)
  rollback_drops s w ms e unset plain whole = (
    ap (λ r. xsend_all ms r.0 r.1) (rollback_none s w unset)
        ∙ xsend_all_dropped ms s w whole e unset plain,
    ap (λ r. answers ms r.0 r.1) (rollback_none s w unset)
        ∙ answers_dropped ms s w whole e unset plain,
  )

  after_write_taken :
      (p : ℕ) (s : Router) (r : Bool × W)
      → r.0 ≡ true
      → after_write pipes p s r ≡ (
          if s.more_out
          then (done, s, r.1)
          else (done, record s { current_out = none }, pipes.io.flush p r.1))
  after_write_taken p s (true, w) e = refl
  after_write_taken p s (false, w) e = cc

  abbrev pub write_all : ℕ → List Msg → W → W
  write_all p [] w = w
  write_all p (m ∷ ms) w = write_all p ms (pipes.io.write p m w).1

  module _ (p : ℕ) (takes : (m : Msg) (w : W) → (pipes.io.write p m w).0 ≡ true) where
    -- After a part has been written that another one follows, or none.
    abbrev part_done : Msg → Router → W → Bool → Sent × Router × W
    part_done m s w b = if b then (done, record s { more_out = b }, (pipes.io.write p m w).1) else (
      done,
      record s { more_out = b; current_out = none },
      pipes.io.flush p (pipes.io.write p m w).1,
    )

    xsend_written :
        (m : Msg) (s : Router) (w : W)
        → s.more_out ≡ true
        → s.current_out ≡ some p
        → s.option_raw ≡ false
        → s.raw_socket ≡ false
        → xsend pipes m s w ≡ part_done m s w (has_more m)
    xsend_written m s w e chosen plain not_raw =
        xsend-next_part m s w e plain
        ∙ ap (λ o. write_part pipes o m s1 w) chosen
        ∙ ap
            (λ b.
              if b && (length m.body == 0)
              then (done, record s1 { current_out = none }, pipes.terminate p false w)
              else after_write pipes p s1 (pipes.io.write p m w))
            not_raw
        ∙ after_write_taken p s1 (pipes.io.write p m w) (takes m w)
      where
        s1 : Router
        s1 = record s { more_out = has_more m }

    -- The parts of a message whose pipe has been chosen.
    xsend_all_written :
        (ms : List Msg) (s : Router) (w : W)
        → IsWhole ms
        → s.more_out ≡ true
        → s.current_out ≡ some p
        → s.option_raw ≡ false
        → s.raw_socket ≡ false
        → xsend_all ms s w
          ≡ (record s { more_out = false; current_out = none }, pipes.io.flush p (write_all p ms w))
    xsend_all_written [] s w whole e chosen plain not_raw = elim whole [ ]
    xsend_all_written (m ∷ []) s w (last f) e chosen plain not_raw =
        ap (λ r. (r.1, r.2)) (xsend_written m s w e chosen plain not_raw)
        ∙ ap (λ b. let r = part_done m s w b in (r.1, r.2)) f
    xsend_all_written (m ∷ ms) s w (part f whole) e chosen plain not_raw =
        ap (λ r. xsend_all ms r.1 r.2) (xsend_written m s w e chosen plain not_raw)
        ∙ ap (λ b. let r = part_done m s w b in xsend_all ms r.1 r.2) f
        ∙ xsend_all_written ms (record s { more_out = true }) (pipes.io.write p m w).1 whole refl
            chosen plain not_raw

  -- The first part names a pipe that takes messages.
  first_part_lem :
      (id : Msg) (o : OutPipe) (s : Router) (w : W)
      → s.more_out ≡ false
      → has_more id ≡ true
      → lookup_out_pipe id.body s.out_pipes ≡ some o
      → (pipes.io.check_write o.pipe w).0 ≡ true
      → xsend pipes id s w ≡ (
        done,
        record s { more_out = true; current_out = some o.pipe },
        (pipes.io.check_write o.pipe w).1,
      )
  unfolding xsend first_part
  first_part_lem id o s w e more found open_pipe =
      ap (λ b. if b then next_part pipes id s w else first_part pipes id s w) e
      ∙ ap
          (λ b.
            if b
            then choose_pipe pipes id.body (lookup_out_pipe id.body s.out_pipes) s1 w
            else (done, s, w))
          more
      ∙ ap (λ x. choose_pipe pipes id.body x s1 w) found
      ∙ ap
          (λ b.
            if b
            then (done, record s1 { current_out = some o.pipe }, r.1)
            else refused pipes id.body (not (pipes.io.check_hwm o.pipe r.1)) s1 r.1)
          open_pipe
    where
      s1 : Router
      s1 = record s { more_out = true }

      r : Bool × W
      r = pipes.io.check_write o.pipe w

  -- Between messages, a message whose first part is the routing id of a pipe goes to this pipe, if it
  -- takes what it is given: the parts behind the id are written in order, then the pipe is flushed,
  -- no other pipe is touched, and the router is again between messages. The socket is not raw.
  pub xsend_all-write_all :
      (id : Msg) (ms : List Msg) (o : OutPipe) (s : Router) (w : W)
      → ((m : Msg) (w' : W) → (pipes.io.write o.pipe m w').0 ≡ true)
      → s.more_out ≡ false
      → s.option_raw ≡ false
      → s.raw_socket ≡ false
      → has_more id ≡ true
      → IsWhole ms
      → lookup_out_pipe id.body s.out_pipes ≡ some o
      → (pipes.io.check_write o.pipe w).0 ≡ true
      → xsend_all (id ∷ ms) s w ≡ (
        record s { more_out = false; current_out = none },
        pipes.io.flush o.pipe (write_all o.pipe ms (pipes.io.check_write o.pipe w).1),
      )
  xsend_all-write_all id ms o s w takes e plain not_raw more whole found open_pipe =
      ap (λ r. xsend_all ms r.1 r.2) (first_part_lem id o s w e more found open_pipe)
      ∙ xsend_all_written o.pipe takes ms (record s { more_out = true; current_out = some o.pipe })
          (pipes.io.check_write o.pipe w).1 whole refl refl plain not_raw
