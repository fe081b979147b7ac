-- ===== src/Socket/Req/Round.antt =====
-- A round of the loop of a REQ socket over the messages that it can read.
use zmq_cn_comment.Base.{
  ℕ, ◌≤◌, ◌<◌, ◌≡◌, refl, sym, ap, subst, ◌∙◌, Bool, true, false, Option, none, some, List, [], ◌∷◌,
  ◌++◌, length, if◌then◌else◌, arith,
}
use zmq_cn_comment.Message.{Msg, has_more}
use zmq_cn_comment.Socket.Req.{Req, DealerOps, Got, got, part_received, is_id, is_bottom}
use zmq_cn_comment.Socket.Req.Receive.{
  recv_reply_pipe, then_got, stop_with, recv_part, skip_message, check_bottom, expect_bottom,
  check_id,
}
use zmq_cn_comment.Socket.Req.Inbox.{Reads, own, IsWhole, last, part, recv_some, skip_rest_lem}

-- The parts of a message behind the empty part, if it begins with one.
abbrev pub behind_bottom : List Msg → Option (List Msg)
behind_bottom [] = none
behind_bottom (b ∷ ms) = if is_bottom b then some ms else none

abbrev pub behind_id : Req → List Msg → Option (List Msg)
behind_id r [] = none
behind_id r (i ∷ ms) = if is_id r i then behind_bottom ms else none

-- The parts behind the envelope, if the message is a reply to the request.
abbrev pub reply_of : Req → List Msg → Option (List Msg)
reply_of r ms = if r.request_id_frames_enabled then behind_id r ms else behind_bottom ms

abbrev pub or_later :
    Option (List Msg × List (List Msg))
    → List (List Msg)
    → Option (List Msg)
    → Option (List Msg × List (List Msg))
or_later later rest none = later
or_later later rest (some ms) = some (ms, rest)

-- The first message that is a reply, and the messages behind it.
abbrev pub first_reply : Req → List (List Msg) → Option (List Msg × List (List Msg))
first_reply r [] = none
first_reply r (m ∷ ms) = or_later (first_reply r ms) ms (reply_of r m)

abbrev pub concat : List (List Msg) → List Msg
concat [] = []
concat (m ∷ ms) = m ++ concat ms

pub data AreWhole : List (List Msg) → Type 0 where
  no_message : AreWhole []
  message : {m : List Msg} {ms : List (List Msg)} → IsWhole m → AreWhole ms → AreWhole (m ∷ ms)

is_bottom-more : (m : Msg) → is_bottom m ≡ true → has_more m ≡ true
unfolding is_bottom
is_bottom-more m h = ground arith

is_id-more : (r : Req) (m : Msg) → is_id r m ≡ true → has_more m ≡ true
unfolding is_id
is_id-more r m h = ground arith

whole_tail : (m : Msg) (ms : List Msg) → IsWhole (m ∷ ms) → has_more m ≡ true → IsWhole ms
whole_tail m ms (last e) h = cc
whole_tail m ms (part e whole) h = whole

whole_cons : (ms : List Msg) → IsWhole ms → (x : Msg) × (xs : List Msg) × (ms ≡ x ∷ xs)
whole_cons [] whole = elim whole [ ]
whole_cons (m ∷ ms) whole = (m, ms, refl)

module _ {D : Type 0} (ops : DealerOps D) (e : D) (r : Req) where
  abbrev pub mine : List (Msg × ℕ) → List Msg
  mine v = own r.reply_pipe v

  abbrev pub begun : Req
  begun = record r { message_begins = false }

  -- A round of the loop: it goes on behind the message, or returns the first part of the reply.
  abbrev pub Round :
      (D → Got × Req × D) → List (Msg × ℕ) → List Msg → Option (List Msg) → Got × Req × D → Type 0
  Round k v rest none o =
      (d' : D) × (w : List (Msg × ℕ)) × (o ≡ k d')
      × Reads ops e d' w
      × (mine w ≡ rest)
      × (length w < length v)
  Round k v rest (some ms) o =
      (x : Msg) × (xs : List Msg) × (d' : D) × (w : List (Msg × ℕ)) × (ms ≡ x ∷ xs)
      × (o ≡ (got x, part_received x begun, d'))
      × Reads ops e d' w
      × (mine w ≡ xs ++ rest)

  recv_part_lem :
      (fuel : ℕ) (d : D) (v : List (Msg × ℕ)) (x : Msg) (xs : List Msg)
      → Reads ops e d v
      → length v < fuel
      → mine v ≡ x ∷ xs
      → (d' : D) × (w : List (Msg × ℕ)) × (recv_part ops fuel begun d
          ≡ (got x, part_received x begun, d'))
        × Reads ops e d' w
        × (mine w ≡ xs)
  unfolding recv_part
  recv_part_lem fuel d v x xs reads lt h =
      let (d', w, e1, reads', e2, e3) = recv_some ops e begun fuel d v x xs reads lt h in
      (d', w, rw e1, reads', e2)

  module _ (fuel : ℕ) (k : D → Got × Req × D) where
    -- The rest of a message that is no reply.
    skip-Round :
        (d1 : D) (v v1 : List (Msg × ℕ)) (m : Msg) (ms rest : List Msg)
        → IsWhole (m ∷ ms)
        → Reads ops e d1 v1
        → length v1 < fuel
        → length v1 < length v
        → mine v1 ≡ ms ++ rest
        → Round k v rest none (skip_message ops fuel r k m d1)
    skip-Round d1 v v1 m ms rest whole reads lt less h =
        let (x, d', w, e1, reads', e2, e3) =
          skip_rest_lem ops e r fuel d1 v1 m ms rest whole reads lt h in
        (d', w, rw e1, reads', e2, omega arith)

    either-Round :
        (v : List (Msg × ℕ)) (b : Bool) (rest : List Msg) (t : Option (List Msg))
        (o o' : Got × Req × D)
        → (b ≡ true → Round k v rest t o)
        → (b ≡ false → Round k v rest none o')
        → Round k v rest (if b then t else none) (if b then o else o')
    either-Round v true rest t o o' h h' = h refl
    either-Round v false rest t o o' h h' = h' refl

    check_bottom-Round :
        (d1 : D) (v v1 : List (Msg × ℕ)) (m : Msg) (ms rest : List Msg)
        → IsWhole (m ∷ ms)
        → Reads ops e d1 v1
        → length v1 < fuel
        → length v1 < length v
        → mine v1 ≡ ms ++ rest
        → Round k v rest (behind_bottom (m ∷ ms)) (check_bottom ops fuel r k m d1)
    check_bottom-Round d1 v v1 m ms rest whole reads lt less h =
        either-Round v (is_bottom m) rest (some ms) (recv_part ops fuel begun d1)
          (skip_message ops fuel r k m d1)
          (λ b.
            let tail = whole_tail m ms whole (is_bottom-more m b) in
            let (x, xs, split) = whole_cons ms tail in
            let (d', w, e1, reads', e2) =
              recv_part_lem fuel d1 v1 x (xs ++ rest) reads lt (h ∙ ap (λ t. t ++ rest) split) in
            (x, xs, d', w, split, e1, reads', e2))
          (λ b. skip-Round d1 v v1 m ms rest whole reads lt less h)

    expect_bottom-Round :
        (d1 : D) (v v1 : List (Msg × ℕ)) (ms rest : List Msg)
        → IsWhole ms
        → Reads ops e d1 v1
        → length v1 < fuel
        → length v1 ≤ length v
        → mine v1 ≡ ms ++ rest
        → Round k v rest (behind_bottom ms) (expect_bottom ops fuel r k d1)
    expect_bottom-Round d1 v v1 [] rest whole reads lt less h = elim whole [ ]
    expect_bottom-Round d1 v v1 (m ∷ ms) rest whole reads lt less h =
        let (d2, v2, e1, reads', e2, e3) = recv_some ops e r fuel d1 v1 m (ms ++ rest) reads lt h in
        subst
          (λ g.
            Round k v rest (behind_bottom (m ∷ ms))
              (then_got ops (stop_with ops r) (check_bottom ops fuel r k) g))
          (sym e1)
          (check_bottom-Round d2 v v2 m ms rest whole reads' (omega arith) (omega arith) e2)

    id-Round :
        (d : D) (v : List (Msg × ℕ)) (ms rest : List Msg)
        → IsWhole ms
        → Reads ops e d v
        → length v < fuel
        → mine v ≡ ms ++ rest
        → Round k v rest
            (behind_id r ms)
            (then_got ops (stop_with ops r) (check_id ops fuel r k) (recv_reply_pipe ops fuel r d))
    id-Round d v [] rest whole reads lt h = elim whole [ ]
    id-Round d v (i ∷ ms) rest whole reads lt h =
        let (d1, v1, e1, reads', e2, e3) = recv_some ops e r fuel d v i (ms ++ rest) reads lt h in
        subst
          (λ g.
            Round k v rest (behind_id r (i ∷ ms))
              (then_got ops (stop_with ops r) (check_id ops fuel r k) g))
          (sym e1)
          (either-Round v (is_id r i) rest (behind_bottom ms) (expect_bottom ops fuel r k d1)
            (skip_message ops fuel r k i d1)
            (λ b.
              expect_bottom-Round d1 v v1 ms rest (whole_tail i ms whole (is_id-more r i b)) reads'
                (omega arith) (omega arith) e2)
            (λ b. skip-Round d1 v v1 i ms rest whole reads' (omega arith) (omega arith) e2))

    -- One round of the loop over messages.
    pub round_lem :
        (d : D) (v : List (Msg × ℕ)) (ms rest : List Msg)
        → IsWhole ms
        → Reads ops e d v
        → length v < fuel
        → mine v ≡ ms ++ rest
        → Round k v rest (reply_of r ms) (
            if r.request_id_frames_enabled
            then then_got ops
                (stop_with ops r)
                (check_id ops fuel r k)
                (recv_reply_pipe ops fuel r d)
            else expect_bottom ops fuel r k d)
    round_lem d v ms rest whole reads lt h =
        both r.request_id_frames_enabled (behind_id r ms) (behind_bottom ms) _ _
          (id-Round d v ms rest whole reads lt h)
          (expect_bottom-Round d v v ms rest whole reads lt (omega arith) h)
      where
        both :
            (b : Bool) (t t' : Option (List Msg)) (o o' : Got × Req × D)
            → Round k v rest t o
            → Round k v rest t' o'
            → Round k v rest (if b then t else t') (if b then o else o')
        both true t t' o o' h h' = h
        both false t t' o o' h h' = h'
