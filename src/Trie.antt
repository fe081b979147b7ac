-- ===== src/Trie.antt =====
-- src/trie.cpp, `trie_t`: the subscriptions of a socket as a tree of bytes with reference counts. A
-- table of pointers to nodes is a list of slots, and `_next.node` is the only slot of a table of one.
-- A failed assertion, or a null pointer followed, is `none`; running out of memory is left out.
pub mod Table
pub mod Node
pub mod Extend
pub mod Put
pub mod Add
pub mod Check
pub mod Scan
pub mod Cut
pub mod Rest
pub mod Single
pub mod Compact
pub mod Prune
pub mod Remove
pub mod Run
mod Tests
use zmq_cn_comment.Base.{
  ℕ, zero, suc, ◌+◌, ◌-◌, ◌%◌, ◌^◌, ◌≡◌, refl, ap, min, Bool, true, false, not, ◌&&◌, ◌||◌, List,
  [], ◌∷◌, ◌++◌, Option, none, some, if◌then◌else◌, ltb, leb, ◌==◌, get_or, set, replicate, take,
  drop,
}
use zmq_cn_comment.Pipe.{◌>>=◌}

-- A table: each slot is null, or a node with its own members and table.
pub data Slots : Type 0 where
  nil : Slots
  vacant : Slots → Slots
  occupied : (refcnt min count live_nodes : ℕ) → (next : Slots) → (rest : Slots) → Slots

pub record Trie : Type 0 where
  pub refcnt : ℕ
  pub min : ℕ
  pub count : ℕ
  pub live_nodes : ℕ
  pub next : Slots

-- A table as a list of pointers.
abbrev pub table : Slots → List (Option Trie)
table nil = []
table (vacant rest) = none ∷ table rest
table (occupied refcnt min count live_nodes next rest) =
    some
      (record { refcnt = refcnt; min = min; count = count; live_nodes = live_nodes; next = next })
    ∷ table rest

abbrev pub slots : List (Option Trie) → Slots
slots [] = nil
slots (none ∷ l) = vacant (slots l)
slots (some t ∷ l) = occupied t.refcnt t.min t.count t.live_nodes t.next (slots l)

abbrev pub start : Trie
start = record { refcnt = 0; min = 0; count = 0; live_nodes = 0; next = nil }

-- c >= _min && c < _min + _count
abbrev pub in_range : ℕ → Trie → Bool
in_range c t = leb t.min c && ltb c (t.min + t.count)

-- The position of a character: there is one slot where _count is 1.
abbrev pub position : ℕ → Trie → ℕ
position c t = if t.count == 1 then 0 else c - t.min

abbrev pub child : ℕ → Trie → Option Trie
child c t = get_or (table t.next) (position c t) none

abbrev pub set_child : ℕ → Option Trie → Trie → Trie
set_child c n t = record t { next = slots (set (table t.next) (position c t) n) }

-- A table that covers the character.
unfoldable pub extend : ℕ → Trie → Trie
extend c t =
    let l = table t.next in
    let above = if ltb t.min c then c - t.min else t.min - c in
    let low = min t.min c in
    if in_range c t
    then t
    else if t.count == 0
    then record t { min = c; count = 1; next = slots (none ∷ []) }
    else if t.count == 1
    then record t {
      min = low;
      count = above + 1;
      next = slots (set (replicate (above + 1) none) (t.min - low) (get_or l 0 none));
    }
    else if ltb t.min c
    then record t {
      count = c - t.min + 1;
      next = slots (l ++ replicate (c - t.min + 1 - t.count) none);
    }
    else record t {
      min = c;
      count = t.min + t.count - c;
      next = slots (replicate (t.min - c) none ++ l);
    }

-- A new node is counted where there is none.
unfoldable pub count_new : ℕ → Trie → Option Trie
count_new c t =
    let live = t.live_nodes + 1 in
    elim (child c t) [
      | some n ↦ some t
      | none ↦
          if (if t.count == 1 then live == 1 else ltb 1 live)
          then some (record t { live_nodes = live })
          else none
    ]

abbrev pub or_new : Option Trie → Trie
or_new none = start
or_new (some n) = n

unfoldable pub add : List ℕ → Trie → Option (Bool × Trie)
add [] t = let refcnt = (t.refcnt + 1) % 2 ^ 32 in some (refcnt == 1, record t { refcnt = refcnt })
add (c ∷ cs) t =
    let e = extend c t in
    count_new c e >>= λ e'.
    add cs (or_new (child c e)) >>= λ r. some (r.0, set_child c (some r.1) e')

abbrev pub is_redundant : Trie → Bool
is_redundant t = t.refcnt == 0 && t.live_nodes == 0

-- The first of n slots from i on that is not null.
unfoldable pub scan_left : List (Option Trie) → ℕ → ℕ → Option ℕ
scan_left l zero i = none
scan_left l (suc n) i = elim (get_or l i none) [ some t ↦ some i | none ↦ scan_left l n (i + 1) ]

-- The number of slots up to the last of the first n that is not null.
unfoldable pub scan_right : List (Option Trie) → ℕ → Option ℕ
scan_right l zero = none
scan_right l (suc n) = elim (get_or l n none) [ some t ↦ some (suc n) | none ↦ scan_right l n ]

-- The single-node representation.
abbrev pub keep : Option Trie → ℕ → Trie → Option Trie
keep none low t = none
keep (some n) low t = some (record t { min = low; count = 1; next = slots (some n ∷ []) })

-- The table is compacted once the node of the character has been pruned.
unfoldable pub compact : ℕ → Trie → Option Trie
compact c t =
    let l = table t.next in
    if t.live_nodes == 1
    then (if c == t.min
        then keep (get_or l (t.count - 1) none) ((t.min + (t.count - 1)) % 256) t
        else if c == t.min + t.count - 1
        then keep (get_or l 0 none) t.min t
        else none)
    else if c == t.min
    then elim (scan_left l (t.count - 1) 1) [
      | none ↦ none
      | some i ↦
          let low = (i + t.min) % 256 in
          if ltb t.min low && ltb (low - t.min) t.count
          then some (record t {
            min = low;
            count = t.count - (low - t.min);
            next = slots (drop (low - t.min) l);
          })
          else none
    ]
    else if c == t.min + t.count - 1
    then elim (scan_right l (t.count - 1)) [
      | none ↦ none
      | some n ↦ some (record t { count = n; next = slots (take n l) })
    ]
    else some t

-- The node of the character is deleted.
unfoldable pub prune : ℕ → Trie → Option Trie
unfolding compact
prune c t =
    let live = (t.live_nodes + 65535) % 65536 in
    if t.count == 1
    then (if live == 0 then some (record t { count = 0; live_nodes = live; next = nil }) else none)
    else if ltb 1 t.live_nodes
    then compact c (record (set_child c none t) { live_nodes = live })
    else none

unfoldable pub rm : List ℕ → Trie → Option (Bool × Trie)
unfolding prune
rm [] t =
    if t.refcnt == 0
    then some (false, t)
    else some (t.refcnt - 1 == 0, record t { refcnt = t.refcnt - 1 })
rm (c ∷ cs) t = if t.count == 0 || not (in_range c t) then some (false, t) else elim (child c t) [
  | none ↦ some (false, t)
  | some n ↦ rm cs n >>= λ r.
      (if is_redundant r.1 then prune c t else some (set_child c (some r.1) t)) >>= λ t'.
      some (r.0, t')
]

-- Whether a subscription is a prefix of the data.
unfoldable pub check : List ℕ → Trie → Option Bool
check [] t = some (not (t.refcnt == 0))
check (c ∷ cs) t =
    if not (t.refcnt == 0)
    then some true
    else if not (in_range c t)
    then some false
    else elim (child c t) [ none ↦ if t.count == 1 then none else some false | some n ↦ check cs n ]
