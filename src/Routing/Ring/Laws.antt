-- ===== src/Routing/Ring/Laws.antt =====
-- The operations on the ring keep its invariant, and lose no pipe.
use zmq_cn_comment.Base.{
  ℕ, ◌+◌, ◌-◌, ◌≤◌, ◌<◌, ◌≡◌, refl, ltb, not, ◌&&◌, ◌==◌, if◌then◌else◌, arith,
}
use zmq_cn_comment.Routing.Array.{Has, size, at, index, push_back, swap}
use zmq_cn_comment.Routing.Array.Laws.{
  Fresh, size-swap, swap-IsValid, swap-Has, at-swap, slot-swap, push_back-IsValid, size-push_back,
  size-erase, erase-IsValid,
}
use zmq_cn_comment.Routing.Ring.{
  Ring, activated, attach, pipe_terminated, deactivate_current, IsOrdered, current_pipe,
}

-- The pipe that becomes active was not.
pub activated-IsOrdered :
    (p : ℕ) (r : Ring)
    → Has r.pipes p
    → r.active ≤ index r.pipes p
    → IsOrdered r
    → IsOrdered (activated p r)
unfolding activated
activated-IsOrdered p r h passive o = ground (
  arith,
  swap-IsValid r.pipes (index r.pipes p) r.active,
  size-swap r.pipes (index r.pipes p) r.active,
)

pub attach-IsOrdered : (p : ℕ) (r : Ring) → Fresh r.pipes p → IsOrdered r → IsOrdered (attach p r)
unfolding attach
attach-IsOrdered p r fresh o = ground (
  arith,
  size-push_back r.pipes p,
  push_back-IsValid r.pipes p fresh o.valid,
  swap-IsValid (push_back p r.pipes) r.active (size (push_back p r.pipes) - 1),
  size-swap (push_back p r.pipes) r.active (size (push_back p r.pipes) - 1),
)

pub pipe_terminated-IsOrdered :
    (p : ℕ) (r : Ring) → Has r.pipes p → IsOrdered r → IsOrdered (pipe_terminated p r)
unfolding pipe_terminated
pipe_terminated-IsOrdered p r h o = ground (
  arith,
  swap-IsValid r.pipes (index r.pipes p) (r.active - 1),
  swap-Has r.pipes (index r.pipes p) (r.active - 1) p,
  size-swap r.pipes (index r.pipes p) (r.active - 1),
  size-erase (swap (index r.pipes p) (r.active - 1) r.pipes) p,
  erase-IsValid (swap (index r.pipes p) (r.active - 1) r.pipes) p,
  size-erase r.pipes p o.valid h,
  erase-IsValid r.pipes p o.valid h,
)

pub deactivate_current-IsOrdered :
    (r : Ring) → 0 < r.active → IsOrdered r → IsOrdered (deactivate_current r)
unfolding deactivate_current
deactivate_current-IsOrdered r pos o = ground (
  arith,
  swap-IsValid r.pipes r.current (r.active - 1),
  size-swap r.pipes r.current (r.active - 1),
)

-- Every other pipe stays active or not as it was; the current one is no longer active.
pub deactivate_current-active :
    (r : Ring) (q : ℕ)
    → 0 < r.active
    → IsOrdered r
    → Has r.pipes q
    → Has (deactivate_current r).pipes q
      × (ltb (index (deactivate_current r).pipes q) (deactivate_current r).active
          ≡ (ltb (index r.pipes q) r.active && not (q == current_pipe r)))
unfolding deactivate_current
deactivate_current-active r q pos o hq = ground (
  arith,
  swap-Has r.pipes r.current (r.active - 1) q,
  slot-swap r.pipes r.current (r.active - 1) q,
  o.valid.knows r.current,
  o.valid.knows (r.active - 1),
)

-- The last active pipe takes the place of the current one.
pub at-deactivate_current :
    (r : Ring) (k : ℕ)
    → IsOrdered r
    → k + 1 < r.active
    → at (deactivate_current r).pipes k
      ≡ (if k == r.current then at r.pipes (r.active - 1) else at r.pipes k)
unfolding deactivate_current
at-deactivate_current r k o h = ground (arith, at-swap r.pipes r.current (r.active - 1) k)

pub active-deactivate_current : (r : Ring) → (deactivate_current r).active ≡ r.active - 1
unfolding deactivate_current
active-deactivate_current r = refl
