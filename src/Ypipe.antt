-- ===== src/Ypipe.antt =====
-- src/ypipe.hpp, `ypipe_t`: the queue between two threads. An item's address is its position among
-- all items ever written, a natural number, so that `_w`, `_r`, `_f` and `_c` are positions. Each
-- operation touches the shared `_c` in one atomic step, but for `flush` while the reader sleeps, which
-- is split in two below.
pub mod Spec
pub mod Refine
pub mod Reader
pub mod Run
mod Tests
use zmq_cn_comment.Base.{
  ℕ, ◌+◌, ◌-◌, ◌≤◌, ◌≡◌, ◌⊎◌, Bool, true, false, not, List, [], ◌∷◌, ◌++◌, Option, none, some,
  length, get_elem?, drop, init_of, last_of, if◌then◌else◌, ◌==◌,
}

module _ {ℓ} (T : Type ℓ) where
  -- `items` are the items from `front` on, the position of `_queue.front ()`.
  pub record Ypipe : Type ℓ where
    pub items : List T
    pub front : ℕ
    pub w : ℕ
    pub f : ℕ
    pub r : Option ℕ
    pub c : Option ℕ

-- A pointer that may be NULL is this position.
abbrev pub is_at : Option ℕ → ℕ → Bool
is_at none k = false
is_at (some n) k = n == k

module _ {ℓ} {T : Type ℓ} where
  -- The constructor's state.
  abbrev pub start : Ypipe T
  start = record { items = []; front = 0; w = 0; f = 0; r = some 0; c = some 0 }

  -- The position of `_queue.back ()`, the terminator.
  abbrev pub back : Ypipe T → ℕ
  back y = y.front + length y.items

  unfoldable pub write : T → Bool → Ypipe T → Ypipe T
  write v incomplete y = record y {
    items = y.items ++ (v ∷ []);
    f = if incomplete then y.f else back y + 1;
  }

  pub unwrite : Ypipe T → Option T × Ypipe T
  unwrite y =
      if y.f == back y then (none, y) else (last_of y.items, record y { items = init_of y.items })

  -- c.cas (w, f) != w: whether the reader sleeps, and the state after the compare-and-swap.
  pub flush_cas : Ypipe T → Bool × Ypipe T
  flush_cas y = if is_at y.c y.w then (false, record y { c = some y.f }) else (true, y)

  -- c.set (f); w = f;
  pub flush_set : Ypipe T → Ypipe T
  flush_set y = record y { c = some y.f; w = y.f }

  unfoldable pub flush : Ypipe T → Bool × Ypipe T
  unfolding flush_cas flush_set
  flush y =
      let cas = flush_cas y in
      if y.w == y.f
      then (true, y)
      else if cas.0
      then (false, flush_set cas.1)
      else (true, record (cas.1) { w = y.f })

  -- &queue.front () != r && r
  abbrev pub prefetched : Ypipe T → Bool
  prefetched y = elim y.r [ none ↦ false | some k ↦ not (k == y.front) ]

  -- r = c.cas (&queue.front (), NULL)
  abbrev pub prefetch : Ypipe T → Ypipe T
  prefetch y = record y { r = y.c; c = if is_at y.c y.front then none else y.c }

  pub check_read : Ypipe T → Bool × Ypipe T
  check_read y = if prefetched y then (true, y) else (prefetched (prefetch y), prefetch y)

  -- queue.pop ()
  abbrev pub pop : Ypipe T → Ypipe T
  pop y = record y { items = drop 1 y.items; front = y.front + 1 }

  pub read : Ypipe T → Option T × Ypipe T
  unfolding check_read
  read y =
      let ready = check_read y in
      if ready.0 then (get_elem? ready.1.items 0, pop ready.1) else (none, ready.1)

  -- The answer of the function on the first item; `none` is the failure of zmq_assert (rc).
  pub probe : (T → Bool) → Ypipe T → Option Bool × Ypipe T
  unfolding check_read
  probe fn y =
      let ready = check_read y in
      if ready.0
      then (elim (get_elem? ready.1.items 0) [ none ↦ none | some v ↦ some (fn v) ], ready.1)
      else (none, ready.1)
