-- ===== src/Routing/Ring.antt =====
-- The part that lb_t (src/lb.cpp) and fq_t (src/fq.cpp) have in common: the active pipes stand at
-- the beginning of the array, and `current` goes round among them.
pub mod Laws
pub mod Current
use zmq_cn_comment.Base.{
  ℕ, ◌+◌, ◌-◌, ◌≤◌, ◌<◌, ◌≡◌, ◌⊎◌, Bool, true, false, if◌then◌else◌, ltb, ◌==◌,
}
use zmq_cn_comment.Routing.Array.{Array, IsValid, Has, size, at, index, push_back, swap, erase}
use zmq_cn_comment.Routing.Array

pub record Ring : Type 0 where
  pub pipes : Array
  pub active : ℕ
  pub current : ℕ

abbrev pub start : Ring
start = record { pipes = Array.empty; active = 0; current = 0 }

-- pipes[current]
abbrev pub current_pipe : Ring → ℕ
current_pipe r = at r.pipes r.current

-- swap (index (pipe), active); active++;
pub activated : ℕ → Ring → Ring
activated p r = record r { pipes = swap (index r.pipes p) r.active r.pipes; active = r.active + 1 }

-- push_back (pipe); swap (active, size () - 1); active++;
pub attach : ℕ → Ring → Ring
attach p r =
    let pipes = push_back p r.pipes in
    record r { pipes = swap r.active (size pipes - 1) pipes; active = r.active + 1 }

-- if (current == active) current = 0;
abbrev pub wrap : ℕ → ℕ → ℕ
wrap current active = if current == active then 0 else current

pub pipe_terminated : ℕ → Ring → Ring
pipe_terminated p r =
    let i = index r.pipes p in
    if ltb i r.active
    then record {
      pipes = erase p (swap i (r.active - 1) r.pipes);
      active = r.active - 1;
      current = wrap r.current (r.active - 1);
    }
    else record r { pipes = erase p r.pipes }

-- active--; swap (current, active); if (current == active) current = 0;
unfoldable pub deactivate_current : Ring → Ring
deactivate_current r = record {
  pipes = swap r.current (r.active - 1) r.pipes;
  active = r.active - 1;
  current = wrap r.current (r.active - 1);
}

pub record IsOrdered (r : Ring) : Type 0 where
  pub valid : IsValid r.pipes
  pub active_le : r.active ≤ size r.pipes
  pub current_in : (r.current < r.active) ⊎ (r.current ≡ 0)
