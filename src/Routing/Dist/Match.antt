-- ===== src/Routing/Dist/Match.antt =====
-- Which pipes match after match and reverse_match.
use zmq_cn_comment.Base.{
  ℕ, zero, suc, ◌+◌, ◌-◌, ◌≤◌, ◌<◌, ◌≡◌, ◌∙◌, refl, not, ◌&&◌, ◌||◌, ◌==◌, ltb, arith,
}
use zmq_cn_comment.Routing.Array.{Has, size, at, index, swap}
use zmq_cn_comment.Routing.Array.Laws.{size-swap, at-swap, slot-swap}
use zmq_cn_comment.Routing.Dist.Order.{Reversed, reverse_loop-Reversed}
use zmq_cn_comment.Routing.Dist.{Dist, IsOrdered, match, unmatch, reverse_loop, reverse_match}

-- Boundaries in order: after match (p) the pipes of the array that match are those that did and, if
-- it is eligible, p.
pub match_matching :
    (p q : ℕ) (d : Dist)
    → IsOrdered d
    → Has d.pipes p
    → Has d.pipes q
    → ltb (index (match p d).pipes q) (match p d).matching
      ≡ (ltb (index d.pipes q) d.matching || (q == p && ltb (index d.pipes p) d.eligible))
unfolding match
match_matching p q d o hp hq =
    ground (arith, slot-swap d.pipes (index d.pipes p) d.matching q, o.valid.knows d.matching)

-- One round of the loop.
abbrev advance : ℕ → Dist → Dist
advance i d = record d { pipes = swap i d.matching d.pipes; matching = d.matching + 1 }

-- The positions below the ones that the loop fills are not touched.
reverse_loop-below :
    (rounds i k : ℕ) (d : Dist)
    → i + rounds ≤ size d.pipes
    → d.matching ≤ i
    → k < d.matching
    → at (reverse_loop rounds i d).pipes k ≡ at d.pipes k
unfolding reverse_loop
reverse_loop-below zero i k d h j l = refl
reverse_loop-below (suc rounds) i k d h j l =
    reverse_loop-below rounds (i + 1) k (advance i d)
      (omega (arith, size-swap d.pipes i d.matching)) (omega arith) (omega arith)
    ∙ at-swap d.pipes i d.matching k (omega arith) (omega arith)
    ∙ ground arith

-- The loop brings the pipes from i on to the positions from `matching` on, in order.
reverse_loop-at :
    (rounds i k : ℕ) (d : Dist)
    → i + rounds ≤ size d.pipes
    → d.matching ≤ i
    → k < rounds
    → at (reverse_loop rounds i d).pipes (d.matching + k) ≡ at d.pipes (i + k)
unfolding reverse_loop
reverse_loop-at zero i k d h j l = absurd (omega arith)
reverse_loop-at (suc rounds) i zero d h j l = ground (
  arith,
  reverse_loop-below rounds (i + 1) (d.matching + 0) (advance i d),
  at-swap d.pipes i d.matching (d.matching + 0),
  size-swap d.pipes i d.matching,
)
reverse_loop-at (suc rounds) i (suc k) d h j l = ground (
  arith,
  reverse_loop-at rounds (i + 1) k (advance i d),
  at-swap d.pipes i d.matching (i + 1 + k),
  size-swap d.pipes i d.matching,
)

-- Boundaries in order: after reverse_match the pipes of the array that match are the eligible ones
-- that did not.
pub reverse_match_matching :
    (q : ℕ) (d : Dist)
    → IsOrdered d
    → Has d.pipes q
    → ltb (index (reverse_match d).pipes q) (reverse_match d).matching
      ≡ (not (ltb (index d.pipes q) d.matching) && ltb (index d.pipes q) d.eligible)
unfolding reverse_match unmatch
reverse_match_matching q d o hq = ground (
  arith,
  reversed.matching_eq,
  reversed.size_eq,
  reversed.has q hq,
  reversed.valid.knows (index d.pipes q - d.matching),
  o.valid.knows (d.matching + index (reverse_loop rounds d.matching fresh).pipes q),
  reverse_loop-at rounds d.matching (index d.pipes q - d.matching) fresh,
  reverse_loop-at rounds d.matching (index (reverse_loop rounds d.matching fresh).pipes q) fresh,
)
  where
    rounds : ℕ
    rounds = d.eligible - d.matching

    fresh : Dist
    fresh = record d { matching = 0 }

    reversed : Reversed rounds fresh (reverse_loop rounds d.matching fresh)
    reversed = reverse_loop-Reversed rounds d.matching fresh (omega arith) (omega arith) o.valid
