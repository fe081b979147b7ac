-- ===== src/Pipe/Credit.antt =====
-- The high water mark: how many messages are on their way.
use zmq_cn_comment.Base.{
  ℕ, ◌+◌, ◌%◌, ◌^◌, ◌≤◌, ◌<◌, ◌≡◌, refl, ◌∙◌, Bool, true, false, not, ◌&&◌, some, ltb,
  if◌then◌else◌, Bool-cases, inl, inr, arith,
}
use zmq_cn_comment.Message.{Msg, has_more, is_routing_id}
use zmq_cn_comment.Ypipe.{Ypipe}
use zmq_cn_comment.Ypipe
use zmq_cn_comment.Pipe.{Pipe, is_active, minus64, check_hwm, check_write, write}

-- The messages written that the peer has not reported as read.
abbrev pub in_flight : Pipe → ℕ
in_flight p = minus64 p.msgs_written p.peers_msgs_read

-- The counters fit 64 bits, and the limit is an int.
abbrev pub Counters : Pipe → Type 0
Counters p = (p.msgs_written < 2 ^ 64) × (p.peers_msgs_read < 2 ^ 64) × (p.hwm < 2 ^ 31)

-- Whether a message counts: the last part of one that is no routing id.
abbrev pub counts : Msg → Bool
counts m = not (has_more m) && not (is_routing_id m)

-- The end after a message has been accepted.
abbrev pub accepted : Msg → Ypipe Msg → Pipe → Pipe
accepted m o p = record p {
  out_pipe = some (Ypipe.write m (has_more m) o);
  msgs_written = if counts m then (p.msgs_written + 1) % 2 ^ 64 else p.msgs_written;
}

write_lem :
    (m : Msg) (p : Pipe) (o : Ypipe Msg)
    → p.out_pipe ≡ some o
    → p.out_active ≡ true
    → is_active p.state ≡ true
    → write m p ≡ (
        if check_hwm p
        then some (true, accepted m o p)
        else some (false, record p { out_active = false }))
unfolding write check_write
write_lem m p o out writable live = elim (Bool-cases (check_hwm p)) [
  | inl room ↦ rw (room, out, writable, live) refl
  | inr full ↦ rw (full, out, writable, live) refl
]

check_hwm_lem : (p : Pipe) → 0 < p.hwm → check_hwm p ≡ ltb (in_flight p) p.hwm
unfolding check_hwm
check_hwm_lem p pos = ground arith

in_flight-accepted :
    (m : Msg) (o : Ypipe Msg) (p : Pipe)
    → Counters p
    → in_flight p < p.hwm
    → in_flight (accepted m o p) ≡ in_flight p + (if counts m then 1 else 0)
in_flight-accepted m o p c lt = elim (Bool-cases (counts m)) [
  | inl e ↦ rw e (omega (arith, c.0, c.1, c.2))
  | inr e ↦ rw e (omega arith)
]

-- On an end that is open for writing and has a limit, with at most that many messages in flight, write
-- accepts a message exactly while fewer are in flight, a last part makes it one more, and the limit is
-- kept.
pub write-Counters :
    (m : Msg) (p : Pipe) (o : Ypipe Msg)
    → p.out_pipe ≡ some o
    → p.out_active ≡ true
    → is_active p.state ≡ true
    → 0 < p.hwm
    → Counters p
    → in_flight p ≤ p.hwm
    → (r : Bool × Pipe) × (write m p ≡ some r)
      × (r.0 ≡ ltb (in_flight p) p.hwm)
      × (in_flight r.1 ≡ in_flight p + (if r.0 && counts m then 1 else 0))
      × (in_flight r.1 ≤ r.1.hwm)
      × Counters r.1
write-Counters m p o out writable live pos c le = elim (Bool-cases (ltb (in_flight p) p.hwm)) [
  | inl room ↦ (
    (true, accepted m o p),
    write_lem m p o out writable live ∙ rw (check_hwm_lem p pos, room) refl,
    rw room refl,
    in_flight-accepted m o p c (ground arith),
    ground (arith, in_flight-accepted m o p c),
    ground (arith, c.0, c.1, c.2),
  )
  | inr full ↦ (
    (false, record p { out_active = false }),
    write_lem m p o out writable live ∙ rw (check_hwm_lem p pos, full) refl,
    rw full refl,
    omega arith,
    le,
    c,
  )
]
