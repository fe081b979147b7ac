-- ===== src/Routing/Dist/Order.antt =====
-- Every operation of dist_t keeps the boundaries in order.
use zmq_cn_comment.Base.{refl, ◌∙◌, zero, suc, ◌-◌, ℕ, zero, suc, ◌+◌, ◌-◌, ◌≤◌, ◌≡◌, false, arith}
use zmq_cn_comment.Routing.Array.{IsValid, Has, size, index, push_back, swap}
use zmq_cn_comment.Routing.Array.Laws.{
  Fresh, size-swap, swap-Has, swap-IsValid, push_back-IsValid, size-push_back,
}
use zmq_cn_comment.Routing.Dist.{
  Dist, IsOrdered, attach, match, unmatch, reverse_loop, reverse_match, to_eligible, activated,
}

pub attach-IsOrdered : (p : ℕ) (d : Dist) → Fresh d.pipes p → IsOrdered d → IsOrdered (attach p d)
unfolding attach
attach-IsOrdered p d fresh o = ground (
  arith,
  size-push_back d.pipes p,
  push_back-IsValid d.pipes p fresh o.valid,
  swap-IsValid (push_back p d.pipes) d.eligible (size (push_back p d.pipes) - 1),
  swap-IsValid (push_back p d.pipes) d.active (size (push_back p d.pipes) - 1),
  size-swap (push_back p d.pipes) d.eligible (size (push_back p d.pipes) - 1),
  size-swap (push_back p d.pipes) d.active (size (push_back p d.pipes) - 1),
)

pub match-IsOrdered :
    (p : ℕ) (d : Dist) → Has d.pipes p → d.more ≡ false → IsOrdered d → IsOrdered (match p d)
unfolding match
match-IsOrdered p d h last o = ground (
  arith,
  swap-IsValid d.pipes (index d.pipes p) d.matching,
  size-swap d.pipes (index d.pipes p) d.matching,
  o.settled last,
)

-- What the loop of reverse_match leaves in place.
pub record Reversed (rounds : ℕ) (d r : Dist) : Type 0 where
  pub valid : IsValid r.pipes
  pub size_eq : size r.pipes ≡ size d.pipes
  pub matching_eq : r.matching ≡ d.matching + rounds
  pub active_eq : r.active ≡ d.active
  pub eligible_eq : r.eligible ≡ d.eligible
  pub more_eq : r.more ≡ d.more
  pub has : (q : ℕ) → Has d.pipes q → Has r.pipes q

pub reverse_loop-Reversed :
    (rounds i : ℕ) (d : Dist)
    → i + rounds ≤ size d.pipes
    → d.matching ≤ i
    → IsValid d.pipes
    → Reversed rounds d (reverse_loop rounds i d)
unfolding reverse_loop
reverse_loop-Reversed zero i d h k v = record {
  valid = v;
  size_eq = refl;
  matching_eq = omega arith;
  active_eq = refl;
  eligible_eq = refl;
  more_eq = refl;
  has = λ q hq. hq;
}
reverse_loop-Reversed (suc rounds) i d h k v =
    let rest =
      reverse_loop-Reversed rounds (i + 1)
        (record d { pipes = swap i d.matching d.pipes; matching = d.matching + 1 })
        (omega (arith, size-swap d.pipes i d.matching)) (omega arith)
        (swap-IsValid d.pipes i d.matching (omega arith) (omega arith) v) in
    record {
      valid = rest.valid;
      size_eq = rest.size_eq ∙ size-swap d.pipes i d.matching;
      matching_eq = omega (arith, rest.matching_eq);
      active_eq = rest.active_eq;
      eligible_eq = rest.eligible_eq;
      more_eq = rest.more_eq;
      has = λ q hq. rest.has q (swap-Has d.pipes i d.matching q (omega arith) (omega arith) v hq);
    }

pub reverse_match-IsOrdered :
    (d : Dist) → d.more ≡ false → IsOrdered d → IsOrdered (reverse_match d)
unfolding reverse_match unmatch
reverse_match-IsOrdered d last o =
    ground (
      arith,
      reverse_loop-Reversed (d.eligible - d.matching) d.matching (unmatch d),
      o.settled last,
    )

pub to_eligible-IsOrdered :
    (p : ℕ) (d : Dist)
    → Has d.pipes p
    → IsOrdered d
    → IsValid (to_eligible p d).pipes × (size (to_eligible p d).pipes ≡ size d.pipes)
unfolding to_eligible
to_eligible-IsOrdered p d h o = ground (
  arith,
  swap-IsValid d.pipes (index d.pipes p) d.eligible,
  size-swap d.pipes (index d.pipes p) d.eligible,
)

-- The pipe that becomes active again was passive.
pub activated-IsOrdered :
    (p : ℕ) (d : Dist)
    → Has d.pipes p
    → d.eligible ≤ index d.pipes p
    → IsOrdered d
    → IsOrdered (activated p d)
unfolding activated to_eligible
activated-IsOrdered p d h passive o = ground (
  arith,
  swap-IsValid d.pipes (index d.pipes p) d.eligible,
  size-swap d.pipes (index d.pipes p) d.eligible,
  swap-IsValid (swap (index d.pipes p) d.eligible d.pipes) (d.eligible + 1 - 1) d.active,
  size-swap (swap (index d.pipes p) d.eligible d.pipes) (d.eligible + 1 - 1) d.active,
)
