-- ===== src/Routing/Dist.antt =====
-- src/dist.cpp and dist.hpp, `dist_t`: the pipes in the order matching, active, eligible, passive,
-- with the three boundaries.
pub mod Order
pub mod Retire
pub mod Match
pub mod Send
use zmq_cn_comment.Base.{
  ℕ, zero, suc, ◌+◌, ◌-◌, ◌≤◌, ◌≡◌, Bool, true, false, not, ◌&&◌, if◌then◌else◌, ltb, leb, ◌==◌,
}
use zmq_cn_comment.Message.{Msg, has_more, is_vsm, init}
use zmq_cn_comment.Routing.Array.{Array, IsValid, Has, size, at, index, push_back, swap, erase}
use zmq_cn_comment.Routing.Array
use zmq_cn_comment.Routing.Pipes.{Pipes}

pub record Dist : Type 0 where
  pub pipes : Array
  pub matching : ℕ
  pub active : ℕ
  pub eligible : ℕ
  pub more : Bool

-- The constructor's state.
abbrev pub start : Dist
start = record { pipes = Array.empty; matching = 0; active = 0; eligible = 0; more = false }

pub attach : ℕ → Dist → Dist
attach p d =
    let pipes = push_back p d.pipes in
    if d.more
    then record d { pipes = swap d.eligible (size pipes - 1) pipes; eligible = d.eligible + 1 }
    else record d {
      pipes = swap d.active (size pipes - 1) pipes;
      active = d.active + 1;
      eligible = d.eligible + 1;
    }

pub match : ℕ → Dist → Dist
match p d =
    if ltb (index d.pipes p) d.matching
    then d
    else if leb d.eligible (index d.pipes p)
    then d
    else record d { pipes = swap (index d.pipes p) d.matching d.pipes; matching = d.matching + 1 }

pub unmatch : Dist → Dist
unmatch d = record d { matching = 0 }

-- for (i = prev_matching; i < eligible; ++i) swap (i, matching++), with the rounds left.
pub reverse_loop : ℕ → ℕ → Dist → Dist
reverse_loop zero i d = d
reverse_loop (suc rounds) i d =
    reverse_loop rounds (i + 1)
      (record d { pipes = swap i d.matching d.pipes; matching = d.matching + 1 })

pub reverse_match : Dist → Dist
unfolding unmatch
reverse_match d = reverse_loop (d.eligible - d.matching) d.matching (unmatch d)

-- if (index (pipe) < boundary) { swap (index (pipe), boundary - 1); boundary--; }
abbrev pub leave : ℕ → ℕ → Array → ℕ × Array
leave p boundary a =
    if ltb (index a p) boundary
    then (boundary - 1, swap (index a p) (boundary - 1) a)
    else (boundary, a)

pub pipe_terminated : ℕ → Dist → Dist
pipe_terminated p d =
    let m = leave p d.matching d.pipes in
    let a = leave p d.active m.1 in
    let e = leave p d.eligible a.1 in
    record d { pipes = erase p e.1; matching = m.0; active = a.0; eligible = e.0 }

-- The first half of `activated`: from passive to eligible.
pub to_eligible : ℕ → Dist → Dist
to_eligible p d =
    if ltb d.eligible (size d.pipes)
    then record d { pipes = swap (index d.pipes p) d.eligible d.pipes; eligible = d.eligible + 1 }
    else d

pub activated : ℕ → Dist → Dist
unfolding to_eligible
activated p d =
    let d1 = to_eligible p d in
    if not d1.more && ltb d1.active (size d1.pipes)
    then record d1 { pipes = swap (d1.eligible - 1) d1.active d1.pipes; active = d1.active + 1 }
    else d1

-- What `write` does with a pipe that takes no message: it becomes passive.
pub deactivate : ℕ → Dist → Dist
deactivate p d =
    let a1 = swap (index d.pipes p) (d.matching - 1) d.pipes in
    let a2 = swap (index a1 p) (d.active - 1) a1 in
    record d {
      pipes = swap (d.active - 1) (d.eligible - 1) a2;
      matching = d.matching - 1;
      active = d.active - 1;
      eligible = d.eligible - 1;
    }

module _ {W : Type 0} (io : Pipes W) where
  pub write : ℕ → Msg → Dist → W → Bool × Dist × W
  unfolding deactivate
  write p m d w =
      let r = io.write p m w in
      if r.0
      then (true, d, (if has_more m then r.1 else io.flush p r.1))
      else (false, deactivate p d, r.1)

  -- for (i = 0; i < matching;) if (!write (pipes[i], msg)) ++failed; else ++i;
  -- Each round takes one pipe, so that the fuel is the number of matching pipes.
  pub write_loop : ℕ → ℕ → ℕ → Msg → Dist → W → Dist × W × ℕ
  write_loop zero i failed m d w = (d, w, failed)
  write_loop (suc fuel) i failed m d w =
      let r = write (at d.pipes i) m d w in
      let rest =
        write_loop fuel (if r.0 then i + 1 else i) (if r.0 then failed else failed + 1) m r.1 r.2 in
      if ltb i d.matching then rest else (d, w, failed)

  -- The state after `distribute`, the caller's message, and how many references to the content of the
  -- message are left, from the one that the caller held: add_refs (matching - 1), then rm_refs
  -- (failed). A message whose content is in place (vsm) is copied and has no count.
  pub record Sent : Type 0 where
    pub dist : Dist
    pub world : W
    pub msg : Msg
    pub refs : ℕ

  pub distribute : Msg → Dist → W → Sent
  unfolding write_loop write
  distribute m d w =
      let r = write_loop d.matching 0 0 m d w in
      if d.matching == 0
      then record { dist = d; world = w; msg = init; refs = 0 }
      else if is_vsm m
      then record { dist = r.0; world = r.1; msg = init; refs = 0 }
      else record { dist = r.0; world = r.1; msg = init; refs = 1 + (d.matching - 1) - r.2 }

  pub send_to_matching : Msg → Dist → W → Sent
  unfolding distribute
  send_to_matching m d w =
      let s = distribute m d w in
      record s {
        dist = record (s.dist) {
          active = if has_more m then s.dist.active else s.dist.eligible;
          more = has_more m;
        };
      }

  pub send_to_all : Msg → Dist → W → Sent
  unfolding send_to_matching
  send_to_all m d w = send_to_matching m (record d { matching = d.active }) w

  -- for (i = 0; i < matching; ++i) if (!pipes[i]->check_hwm ()) return false;
  pub hwm_loop : ℕ → ℕ → Dist → W → Bool
  hwm_loop zero i d w = true
  hwm_loop (suc rounds) i d w = io.check_hwm (at d.pipes i) w && hwm_loop rounds (i + 1) d w

  pub check_hwm : Dist → W → Bool
  unfolding hwm_loop
  check_hwm d w = hwm_loop d.matching 0 d w

-- The boundaries are in order, and outside a multipart message all eligible pipes are active.
pub record IsOrdered (d : Dist) : Type 0 where
  pub valid : IsValid d.pipes
  pub matching_le : d.matching ≤ d.active
  pub active_le : d.active ≤ d.eligible
  pub eligible_le : d.eligible ≤ size d.pipes
  pub settled : d.more ≡ false → d.active ≡ d.eligible
