-- ===== src/Socket/Session/Accepted.antt =====
-- Whatever the session of a REQ socket accepts is a stream of well-formed replies.
use zmq_cn_comment.Base.{
  ◌≡◌, ◌↔◌, inl, inr, refl, sym, ap, subst, ◌∙◌, false, List, [], ◌∷◌, ◌++◌, length, if◌then◌else◌,
  ◌==◌, ==_iff, Bool-cases, if_cases,
}
use zmq_cn_comment.Errno.{Errno}
use zmq_cn_comment.Message.{Msg, is_command}
use zmq_cn_comment.Socket.Session.{
  Rc, done, fail, State, bottom, request_id, body, id_size, push_at, push_msg, then_push, push_all,
}
use zmq_cn_comment.Socket.Session.Replies.{
  IsPart, IsBottom, IsId, Parts, last, part, plain, correlated, Replies, no_reply, reply, frames,
  sink, push_body, push_last, push_bottom, push_id, push_id_bottom, push_msg-push_at,
  push_all-Replies,
}

-- How a step on a message that is no command may go.
data Stepped (m : Msg) (w : List Msg) : State → Rc × State × List Msg → Type 0 where
  begins_id : IsId m → Stepped m w bottom (done, request_id, w ++ (m ∷ []))
  begins : IsBottom m → Stepped m w bottom (done, body, w ++ (m ∷ []))
  after_id : IsBottom m → Stepped m w request_id (done, body, w ++ (m ∷ []))
  goes_on : IsPart m → Stepped m w body (done, body, w ++ (m ∷ []))
  ends : m.flags ≡ 0 → Stepped m w body (done, bottom, w ++ (m ∷ []))
  faulty : {s : State} → Stepped m w s (fail Errno.efault, s, w)

module _ (m : Msg) (w : List Msg) (e : is_command m ≡ false) where
  steps :
      (s : State) (p : Rc × State × List Msg)
      → push_msg sink m s w ≡ p
      → Stepped m w s p
      → Stepped m w s (push_msg sink m s w)
  steps s p q h = subst (Stepped m w s) (sym q) h

  -- A message with other flags or another size.
  faults :
      (s : State)
      → push_at sink s m w ≡ (fail Errno.efault, s, w)
      → Stepped m w s (push_msg sink m s w)
  faults s q = steps s _ (push_msg-push_at m s w e ∙ q) faulty

  step_bottom : Stepped m w bottom (push_msg sink m bottom w)
  step_bottom = elim (Bool-cases (m.flags == 1)) [
    | inr f ↦ faults bottom (rw f)
    | inl f ↦ elim (Bool-cases (length m.body == id_size)) [
      | inl n ↦
          let id : IsId m = ((==_iff _ _).0 f, (==_iff _ _).0 n) in
          steps bottom _ (push_id m w id) (begins_id id)
      | inr n ↦ elim (Bool-cases (length m.body == 0)) [
        | inl z ↦
            let b : IsBottom m = ((==_iff _ _).0 f, (==_iff _ _).0 z) in
            steps bottom _ (push_bottom m w b) (begins b)
        | inr z ↦ faults bottom (rw (f, n, z))
      ]
    ]
  ]

  step_request_id : Stepped m w request_id (push_msg sink m request_id w)
  step_request_id = elim (Bool-cases (m.flags == 1)) [
    | inr f ↦ faults request_id (rw f)
    | inl f ↦ elim (Bool-cases (length m.body == 0)) [
      | inl z ↦
          let b : IsBottom m = ((==_iff _ _).0 f, (==_iff _ _).0 z) in
          steps request_id _ (push_id_bottom m w b) (after_id b)
      | inr z ↦ faults request_id (rw (f, z))
    ]
  ]

  step_body : Stepped m w body (push_msg sink m body w)
  step_body = elim (Bool-cases (m.flags == 1)) [
    | inl f ↦ steps body _ (push_body m w ((==_iff _ _).0 f)) (goes_on ((==_iff _ _).0 f))
    | inr f ↦ elim (Bool-cases (m.flags == 0)) [
      | inl z ↦ steps body _ (push_last m w ((==_iff _ _).0 z)) (ends ((==_iff _ _).0 z))
      | inr z ↦ faults body (rw (f, z))
    ]
  ]

  step_cases : (s : State) → Stepped m w s (push_msg sink m s w)
  step_cases bottom = step_bottom
  step_cases request_id = step_request_id
  step_cases body = step_body

-- What may follow in each state.
abbrev Follows : List Msg → Type 0
Follows ms = (xs : List Msg) × (ys : List Msg) × (ms ≡ xs ++ ys) × Parts xs × Replies ys

abbrev Rest : State → List Msg → Type 0
Rest bottom ms = Replies ms
Rest request_id ms = (b : Msg) × (rest : List Msg) × (ms ≡ b ∷ rest) × IsBottom b × Follows rest
Rest body ms = Follows ms

data NoCommand : List Msg → Type 0 where
  nothing : NoCommand []
  frame : {m : Msg} {ms : List Msg} → is_command m ≡ false → NoCommand ms → NoCommand (m ∷ ms)

rest_cons :
    (m : Msg) (w ms : List Msg) (s : State) (p : Rc × State × List Msg)
    → Stepped m w s p
    → p.0 ≡ done
    → Rest p.1 ms
    → Rest s (m ∷ ms)
rest_cons m w ms s p (begins_id (f, n)) h (b, rest, e, bot, (xs, ys, e', parts, rs)) =
    reply (m ∷ b ∷ xs) ys (ap (λ t. m ∷ t) (e ∙ ap (λ t. b ∷ t) e')) (correlated (f, n) bot parts)
      rs
rest_cons m w ms s p (begins b) h (xs, ys, e, parts, rs) =
    reply (m ∷ xs) ys (ap (λ t. m ∷ t) e) (plain b parts) rs
rest_cons m w ms s p (after_id b) h follows = (m, ms, refl, b, follows)
rest_cons m w ms s p (goes_on b) h (xs, ys, e, parts, rs) =
    (m ∷ xs, ys, ap (λ t. m ∷ t) e, part b parts, rs)
rest_cons m w ms s p (ends z) h rs = (m ∷ [], ms, refl, last z, rs)
rest_cons m w ms s p faulty h rs = cc

then_accepted :
    (m : Msg) (w ms : List Msg) (s : State) (p : Rc × State × List Msg)
    → Stepped m w s p
    → ((s' : State) (w' : List Msg)
        → (push_all sink ms s' w').0 ≡ done
        → (push_all sink ms s' w').1 ≡ bottom
        → Rest s' ms)
    → (then_push sink (push_all sink ms) p).0 ≡ done
    → (then_push sink (push_all sink ms) p).1 ≡ bottom
    → Rest s (m ∷ ms)
then_accepted m w ms s (done, s', w') st go h e =
    rest_cons m w ms s (done, s', w') st refl (go s' w' h e)
then_accepted m w ms s (fail x, s', w') st go h e = cc

accepted :
    (ms : List Msg) (s : State) (w : List Msg)
    → NoCommand ms
    → (push_all sink ms s w).0 ≡ done
    → (push_all sink ms s w).1 ≡ bottom
    → Rest s ms
unfolding push_all
accepted [] s w nothing h e = subst (λ t. Rest t []) (sym e) no_reply
accepted (m ∷ ms) s w (frame c cs) h e =
    then_accepted m w ms s (push_msg sink m s w) (step_cases m w c s)
      (λ s' w'. accepted ms s' w' cs) h e

frames-NoCommand : (ms : List Msg) → NoCommand (frames ms)
unfolding frames
frames-NoCommand [] = nothing
frames-NoCommand (m ∷ ms) =
    if_cases (λ t. NoCommand t) (is_command m) (λ e. frames-NoCommand ms)
      (λ e. frame e (frames-NoCommand ms))

then_push_ext :
    (k k' : State → List Msg → Rc × State × List Msg) (p : Rc × State × List Msg)
    → ((s : State) (w : List Msg) → k s w ≡ k' s w)
    → then_push sink k p ≡ then_push sink k' p
then_push_ext k k' (done, s, w) h = h s w
then_push_ext k k' (fail e, s, w) h = refl

-- Commands change nothing.
push_all-frames :
    (ms : List Msg) (s : State) (w : List Msg)
    → push_all sink ms s w ≡ push_all sink (frames ms) s w
unfolding push_all frames push_msg
push_all-frames [] s w = refl
push_all-frames (m ∷ ms) s w = elim (Bool-cases (is_command m)) [
  | inl e ↦ rw e (push_all-frames ms s w)
  | inr e ↦
      then_push_ext (push_all sink ms) (push_all sink (frames ms)) (push_msg sink m s w)
        (push_all-frames ms)
      ∙ ap (λ t. push_all sink t s w) (sym (ap (λ b. if b then frames ms else m ∷ frames ms) e))
]

-- Of the messages that the engine hands to the session of a REQ socket, with a pipe that takes them
-- all, every one is accepted and the session is again at the beginning of a reply exactly if those
-- that are no commands are well-formed replies, one after the other: an empty part, which a part of
-- four bytes may precede, and the parts of the body, with no flag but more.
pub push_all-accepts :
    (ms : List Msg)
    → let r = push_all sink ms bottom [] in ((r.0 ≡ done) × (r.1 ≡ bottom)) ↔ Replies (frames ms)
push_all-accepts ms = (
  λ h.
      let fs = push_all-frames ms bottom [] in
      accepted (frames ms) bottom [] (frames-NoCommand ms) (ap (λ r. r.0) (sym fs) ∙ h.0)
        (ap (λ r. r.1) (sym fs) ∙ h.1),
  λ rs.
      let fs = push_all-frames ms bottom [] ∙ push_all-Replies (frames ms) [] rs in
      (ap (λ r. r.0) fs, ap (λ r. r.1) fs),
)
