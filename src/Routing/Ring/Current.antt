-- ===== src/Routing/Ring/Current.antt =====
-- What happens to the current pipe, the one of a message in transit, when another one terminates.
use zmq_cn_comment.Base.{
  ℕ, ◌+◌, ◌-◌, ◌≤◌, ◌<◌, ◌≡◌, ◌≢◌, ◌⊎◌, inl, inr, Bool-cases, ltb, ltb→lt, lt→ltb, ◌==◌,
  if◌then◌else◌, arith,
}
use zmq_cn_comment.Routing.Array.{Array, IsValid, Has, at, index, swap, erase}
use zmq_cn_comment.Routing.Array.Laws.{
  size-swap, swap-IsValid, swap-Has, at-swap, slot-swap, at-erase, erase-Has,
}
use zmq_cn_comment.Routing.Ring.{Ring, pipe_terminated, IsOrdered, current_pipe}

-- The array once an active pipe has gone.
module _ (p : ℕ) (r : Ring) (o : IsOrdered r) (h : Has r.pipes p)
    (lt : index r.pipes p < r.active) where
  abbrev swapped : Array
  swapped = swap (index r.pipes p) (r.active - 1) r.pipes

  swapped-IsValid : IsValid swapped
  swapped-IsValid =
      swap-IsValid r.pipes (index r.pipes p) (r.active - 1) (omega arith)
        (omega (arith, o.active_le)) o.valid

  swapped-Has : (q : ℕ) → Has r.pipes q → Has swapped q
  swapped-Has q =
      swap-Has r.pipes (index r.pipes p) (r.active - 1) q (omega arith) (omega (arith, o.active_le))
        o.valid

  -- The active pipes below the last one stay, but that the last one takes the place of p.
  at-erased :
      (k : ℕ)
      → k + 1 < r.active
      → at (erase p swapped) k
        ≡ (if k == index r.pipes p then at r.pipes (r.active - 1) else at r.pipes k)
  at-erased k hk = ground (
    arith,
    o.active_le,
    size-swap r.pipes (index r.pipes p) (r.active - 1),
    at-swap r.pipes (index r.pipes p) (r.active - 1) k,
    slot-swap r.pipes (index r.pipes p) (r.active - 1) p,
    o.valid.knows (r.active - 1),
    at-erase swapped p swapped-IsValid (swapped-Has p h) k,
  )

-- An active current pipe stays current when another pipe terminates, if it is not the last of the
-- active ones, or the one that terminates is not active, or is the first.
pub pipe_terminated-current_pipe :
    (p : ℕ) (r : Ring)
    → IsOrdered r
    → Has r.pipes p
    → r.current < r.active
    → p ≢ current_pipe r
    → (r.current + 1 < r.active) ⊎ ((r.active ≤ index r.pipes p) ⊎ (index r.pipes p ≡ 0))
    → current_pipe (pipe_terminated p r) ≡ current_pipe r
unfolding pipe_terminated
pipe_terminated-current_pipe p r o h lt ne side =
    elim (Bool-cases (ltb (index r.pipes p) r.active)) [
      | inl t ↦ rw t (
          ground
            (arith, at-erased p r o h (ltb→lt _ _ t) r.current, at-erased p r o h (ltb→lt _ _ t) 0))
      | inr f ↦ rw f (ground (arith, at-erase r.pipes p o.valid h r.current))
    ]

-- In that case another pipe becomes current, though the array still holds the old one.
pub pipe_terminated_moves :
    (p : ℕ) (r : Ring)
    → IsOrdered r
    → Has r.pipes p
    → r.current + 1 ≡ r.active
    → 0 < index r.pipes p
    → index r.pipes p < r.current
    → (current_pipe (pipe_terminated p r) ≢ current_pipe r)
      × Has (pipe_terminated p r).pipes (current_pipe r)
unfolding pipe_terminated
pipe_terminated_moves p r o h last pos lt = rw (lt→ltb (index r.pipes p) r.active (omega arith)) (
  ground (arith, at-erased p r o h (omega arith) 0, o.valid.knows 0, o.valid.knows r.current),
  erase-Has (swapped p r o h (omega arith)) p (swapped-IsValid p r o h (omega arith))
      (swapped-Has p r o h (omega arith) p h) (current_pipe r)
      (swapped-Has p r o h (omega arith) (current_pipe r) (ground (arith, o.valid.knows r.current)))
      (λ e. ground (arith, o.valid.knows r.current)),
)

-- It is the first one that becomes current.
pub pipe_terminated_first :
    (p : ℕ) (r : Ring)
    → IsOrdered r
    → Has r.pipes p
    → r.current + 1 ≡ r.active
    → 0 < index r.pipes p
    → index r.pipes p < r.current
    → (current_pipe (pipe_terminated p r) ≡ at r.pipes 0) × (0 < (pipe_terminated p r).active)
unfolding pipe_terminated
pipe_terminated_first p r o h last pos lt =
    rw (lt→ltb (index r.pipes p) r.active (omega arith))
      (ground (arith, at-erased p r o h (omega arith) 0), omega arith)
