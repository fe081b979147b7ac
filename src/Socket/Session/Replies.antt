-- ===== src/Socket/Session/Replies.antt =====
-- The session of a REQ socket accepts the streams of well-formed replies and no other.
use zmq_cn_comment.Base.{
  ℕ, ◌/◌, ◌%◌, ◌≡◌, ◌⊎◌, inl, inr, sym, ap, ◌∙◌, Bool, true, false, List, [], ◌∷◌, ◌++◌, length,
  if◌then◌else◌, ◌==◌, ==_iff, append_assoc, append-nil, arith,
}
use zmq_cn_comment.Message.{Msg, is_command}
use zmq_cn_comment.Socket.Session.{
  done, State, bottom, request_id, body, id_size, session_push, push_at, push_msg, push_all,
}

-- A part that is followed by another one, and has no other flag.
abbrev pub IsPart : Msg → Type 0
IsPart m = m.flags ≡ 1

-- The empty part that ends the envelope.
abbrev pub IsBottom : Msg → Type 0
IsBottom m = IsPart m × (length m.body ≡ 0)

-- The part that holds the number of the request.
abbrev pub IsId : Msg → Type 0
IsId m = IsPart m × (length m.body ≡ id_size)

-- The parts of a message, with the more flag on all but the last.
pub data Parts : List Msg → Type 0 where
  last : {m : Msg} → m.flags ≡ 0 → Parts (m ∷ [])
  part : {m : Msg} {ms : List Msg} → IsPart m → Parts ms → Parts (m ∷ ms)

pub data Reply : List Msg → Type 0 where
  plain : {b : Msg} {ms : List Msg} → IsBottom b → Parts ms → Reply (b ∷ ms)
  correlated : {i b : Msg} {ms : List Msg} → IsId i → IsBottom b → Parts ms → Reply (i ∷ b ∷ ms)

-- One reply after the other.
pub data Replies : List Msg → Type 0 where
  no_reply : Replies []
  reply : {ms : List Msg} (xs ys : List Msg) → ms ≡ xs ++ ys → Reply xs → Replies ys → Replies ms

-- The messages of a stream that are no commands.
unfoldable pub frames : List Msg → List Msg
frames [] = []
frames (m ∷ ms) = if is_command m then frames ms else m ∷ frames ms

-- A pipe that takes everything.
abbrev pub sink : Msg → List Msg → Bool × List Msg
sink m w = (true, w ++ (m ∷ []))

not_command : (f : ℕ) → (f ≡ 0) ⊎ (f ≡ 1) → (f / 2 % 2 == 1) ≡ false
not_command f (inl e) = ground arith
not_command f (inr e) = ground arith

pub is_command-flags : (m : Msg) → (m.flags ≡ 0) ⊎ (m.flags ≡ 1) → is_command m ≡ false
unfolding is_command
is_command-flags m h = not_command m.flags h

session_push-sink :
    (m : Msg) (w : List Msg) → is_command m ≡ false → session_push sink m w ≡ (done, w ++ (m ∷ []))
unfolding session_push
session_push-sink m w e = rw e

-- The step on a message that is no command.
pub push_msg-push_at :
    (m : Msg) (s : State) (w : List Msg)
    → is_command m ≡ false
    → push_msg sink m s w ≡ push_at sink s m w
unfolding push_msg
push_msg-push_at m s w e = rw e

pub push_body :
    (m : Msg) (w : List Msg) → IsPart m → push_msg sink m body w ≡ (done, body, w ++ (m ∷ []))
push_body m w h = push_msg-push_at m body w e ∙ rw ((==_iff m.flags 1).1 h, session_push-sink m w e)
  where
    e : is_command m ≡ false
    e = is_command-flags m (inr h)

pub push_last :
    (m : Msg) (w : List Msg) → m.flags ≡ 0 → push_msg sink m body w ≡ (done, bottom, w ++ (m ∷ []))
push_last m w h =
    push_msg-push_at m body w e ∙ rw (flag_one, (==_iff m.flags 0).1 h, session_push-sink m w e)
  where
    e : is_command m ≡ false
    e = is_command-flags m (inl h)

    flag_one : (m.flags == 1) ≡ false
    flag_one = ground arith

pub push_bottom :
    (m : Msg) (w : List Msg) → IsBottom m → push_msg sink m bottom w ≡ (done, body, w ++ (m ∷ []))
push_bottom m w (h, n) =
    push_msg-push_at m bottom w e
    ∙ rw ((==_iff m.flags 1).1 h, four, (==_iff (length m.body) 0).1 n, session_push-sink m w e)
  where
    e : is_command m ≡ false
    e = is_command-flags m (inr h)

    four : (length m.body == id_size) ≡ false
    four = ground arith

pub push_id :
    (m : Msg) (w : List Msg) → IsId m → push_msg sink m bottom w ≡ (done, request_id, w ++ (m ∷ []))
push_id m w (h, n) =
    push_msg-push_at m bottom w e
    ∙ rw ((==_iff m.flags 1).1 h, (==_iff (length m.body) id_size).1 n, session_push-sink m w e)
  where
    e : is_command m ≡ false
    e = is_command-flags m (inr h)

pub push_id_bottom :
    (m : Msg) (w : List Msg)
    → IsBottom m
    → push_msg sink m request_id w ≡ (done, body, w ++ (m ∷ []))
push_id_bottom m w (h, n) =
    push_msg-push_at m request_id w e
    ∙ rw ((==_iff m.flags 1).1 h, (==_iff (length m.body) 0).1 n, session_push-sink m w e)
  where
    e : is_command m ≡ false
    e = is_command-flags m (inr h)

-- A step that succeeds.
push_one :
    (m : Msg) (ms : List Msg) (s s' : State) (w : List Msg)
    → push_msg sink m s w ≡ (done, s', w ++ (m ∷ []))
    → push_all sink (m ∷ ms) s w ≡ push_all sink ms s' (w ++ (m ∷ []))
unfolding push_all
push_one m ms s s' w e = rw e

snoc : (w : List Msg) (m : Msg) (ms : List Msg) → (w ++ (m ∷ [])) ++ ms ≡ w ++ (m ∷ ms)
snoc w m ms = append_assoc w (m ∷ []) ms

push_all-Parts :
    (xs ys w : List Msg)
    → Parts xs
    → push_all sink (xs ++ ys) body w ≡ push_all sink ys bottom (w ++ xs)
push_all-Parts [] ys w h = elim h [ ]
push_all-Parts (m ∷ []) ys w (last e) = push_one m ys body bottom w (push_last m w e)
push_all-Parts (m ∷ ms) ys w (part e h) =
    push_one m (ms ++ ys) body body w (push_body m w e)
    ∙ push_all-Parts ms ys (w ++ (m ∷ [])) h
    ∙ ap (push_all sink ys bottom) (snoc w m ms)

push_all-Reply :
    (xs ys w : List Msg)
    → Reply xs
    → push_all sink (xs ++ ys) bottom w ≡ push_all sink ys bottom (w ++ xs)
push_all-Reply [] ys w h = elim h [ ]
push_all-Reply (b ∷ ms) ys w (plain e h) =
    push_one b (ms ++ ys) bottom body w (push_bottom b w e)
    ∙ push_all-Parts ms ys (w ++ (b ∷ [])) h
    ∙ ap (push_all sink ys bottom) (snoc w b ms)
push_all-Reply (i ∷ b ∷ ms) ys w (correlated e e' h) =
    push_one i (b ∷ (ms ++ ys)) bottom request_id w (push_id i w e)
    ∙ push_one b (ms ++ ys) request_id body (w ++ (i ∷ [])) (push_id_bottom b _ e')
    ∙ push_all-Parts ms ys ((w ++ (i ∷ [])) ++ (b ∷ [])) h
    ∙ ap (push_all sink ys bottom) (snoc (w ++ (i ∷ [])) b ms ∙ snoc w i (b ∷ ms))

pub push_all-Replies :
    (ms w : List Msg) → Replies ms → push_all sink ms bottom w ≡ (done, bottom, w ++ ms)
unfolding push_all
push_all-Replies ms w no_reply = ap (λ t. (done, bottom, t)) (sym (append-nil w))
push_all-Replies ms w (reply xs ys e r rs) =
    ap (λ t. push_all sink t bottom w) e
    ∙ push_all-Reply xs ys w r
    ∙ push_all-Replies ys (w ++ xs) rs
    ∙ ap (λ t. (done, bottom, t)) (append_assoc w xs ys ∙ ap (λ t. w ++ t) (sym e))
