-- ===== src/Socket/Req/Reply.antt =====
-- What a REQ socket takes for its reply.
use zmq_cn_comment.Base.{
  ℕ, zero, suc, ◌<◌, ◌≡◌, refl, sym, ap, subst, ◌∙◌, Bool, true, false, not, Option, none, some,
  List, [], ◌∷◌, ◌++◌, length, if◌then◌else◌, arith,
}
use zmq_cn_comment.Message.{Msg}
use zmq_cn_comment.Socket.Req.{Req, DealerOps, Got, got, again, efsm, part_received}
use zmq_cn_comment.Socket.Req.Receive.{recv_reply_pipe, recv_part, find_reply, xrecv}
use zmq_cn_comment.Socket.Req.Inbox.{Reads, own, recv_none}
use zmq_cn_comment.Socket.Req.Round.{
  reply_of, or_later, first_reply, concat, AreWhole, message, Round, round_lem,
}

module _ {D : Type 0} (ops : DealerOps D) (e : D) (r : Req) where
  -- What xrecv answers at the beginning of a message.
  abbrev pub Answers : Option (List Msg × List (List Msg)) → Got × Req × D → Type 0
  Answers none o = (o.0 ≡ again) × (o.1 ≡ r) × (o.2 ≡ e)
  Answers (some (ms, later)) o =
      (x : Msg) × (xs : List Msg) × (w : List (Msg × ℕ)) × (ms ≡ x ∷ xs)
      × (o.0 ≡ got x)
      × (o.1 ≡ part_received x (record r { message_begins = false }))
      × Reads ops e o.2 w
      × (own r.reply_pipe w ≡ xs ++ concat later)

  after-Round :
      (k : D → Got × Req × D) (v : List (Msg × ℕ)) (later : List (List Msg)) (t : Option (List Msg))
      (o : Got × Req × D)
      → Round ops e r k v (concat later) t o
      → ((d' : D) (w : List (Msg × ℕ))
          → Reads ops e d' w
          → own r.reply_pipe w ≡ concat later
          → length w < length v
          → Answers (first_reply r later) (k d'))
      → Answers (or_later (first_reply r later) later t) o
  after-Round k v later none o (d', w, h, reads, h1, lt) go =
      subst (Answers (first_reply r later)) (sym h) (go d' w reads h1 lt)
  after-Round k v later (some ms) o (x, xs, d', w, split, h, reads, h1) go = (
    x,
    xs,
    w,
    split,
    ap (λ t. t.0) h,
    ap (λ t. t.1) h,
    subst (λ t. Reads ops e t w) (ap (λ t. t.2) (sym h)) reads,
    h1,
  )

  find_reply_none :
      (fuel : ℕ) (d d' : D)
      → recv_reply_pipe ops (suc fuel) r d ≡ (again, d')
      → find_reply ops (suc fuel) r d ≡ (again, r, d')
  unfolding find_reply
  find_reply_none fuel d d' e = rw e (either r.request_id_frames_enabled (again, r, d'))
    where
      either : (b : Bool) (o : Got × Req × D) → (if b then o else o) ≡ o
      either true o = refl
      either false o = refl

  find_reply-first_reply :
      (fuel : ℕ) (ms : List (List Msg)) (d : D) (v : List (Msg × ℕ))
      → AreWhole ms
      → Reads ops e d v
      → length v < fuel
      → own r.reply_pipe v ≡ concat ms
      → Answers (first_reply r ms) (find_reply ops fuel r d)
  unfolding find_reply
  find_reply-first_reply zero ms d v whole reads lt h = absurd (omega arith)
  find_reply-first_reply (suc fuel) [] d v whole reads lt h =
      subst (Answers none)
        (sym (find_reply_none fuel d e (recv_none ops e r (suc fuel) d v reads lt h)))
        (refl, refl, refl)
  find_reply-first_reply (suc fuel) (m ∷ ms) d v (message whole rest) reads lt h =
      after-Round (find_reply ops fuel r) v ms (reply_of r m) _
        (round_lem ops e r (suc fuel) (find_reply ops fuel r) d v m (concat ms) whole reads lt h)
        (λ d' w reads' h' less. find_reply-first_reply fuel ms d' w rest reads' (omega arith) h')

xrecv_begins :
    {D : Type 0} (ops : DealerOps D) (fuel : ℕ) (r : Req) (d : D)
    → r.receiving_reply ≡ true
    → r.message_begins ≡ true
    → xrecv ops fuel r d ≡ find_reply ops fuel r d
unfolding xrecv
xrecv_begins {D} ops fuel r d awaits begins =
    ap
      (λ b.
        if not b
        then (efsm, r, d)
        else if r.message_begins
        then find_reply ops fuel r d
        else recv_part ops fuel r d)
      awaits
    ∙ ap (λ b. if b then find_reply ops fuel r d else recv_part ops fuel r d) begins

-- While a reply is awaited, what the dealer hands out from the reply pipe (from all pipes, if it is not
-- known) until nothing is left to read being whole messages: xrecv, with fuel for more than all these
-- parts, gives the first part behind the envelope of the first message that is a reply to the request,
-- and leaves the parts and the messages behind it to be read from the dealer; if none is, it answers EAGAIN,
-- still awaits the reply, and leaves the dealer as it is once nothing is left to read. A message is a reply if it
-- begins with an empty part, after the number of the request if requests are numbered. The socket may
-- send again exactly if the part was the last one.
pub xrecv-first_reply :
    {D : Type 0} (ops : DealerOps D) (e : D) (r : Req) (fuel : ℕ) (ms : List (List Msg)) (d : D)
    (v : List (Msg × ℕ))
    → r.receiving_reply ≡ true
    → r.message_begins ≡ true
    → AreWhole ms
    → Reads ops e d v
    → length v < fuel
    → own r.reply_pipe v ≡ concat ms
    → Answers ops e r (first_reply r ms) (xrecv ops fuel r d)
xrecv-first_reply ops e r fuel ms d v awaits begins whole reads lt h =
    subst (Answers ops e r (first_reply r ms)) (sym (xrecv_begins ops fuel r d awaits begins))
      (find_reply-first_reply ops e r fuel ms d v whole reads lt h)
