-- ===== src/Trie/Node.antt =====
-- A node of the trie with its slots in order, and what stands at a character.
use zmq_cn_comment.Base.{
  get_or_outside, ℕ, ◌+◌, ◌-◌, ◌<◌, ◌≤◌, ◌^◌, ◌≡◌, refl, ap, sym, ◌∙◌, false, List, [], ◌∷◌, Option,
  none, some, Option-cases, inl, inr, if◌then◌else◌, length, get_or, leb, arith,
}
use zmq_cn_comment.Trie.{Trie, table, slots, in_range, child, is_redundant}
use zmq_cn_comment.Trie.Table.{one_if, live, live_slot}

pub table-slots : (l : List (Option Trie)) → table (slots l) ≡ l
table-slots [] = refl
table-slots (none ∷ l) = ap (λ m. none ∷ m) (table-slots l)
table-slots (some t ∷ l) = ap (λ m. some t ∷ m) (table-slots l)

-- The slots of a node agree with its counts, its table fits the bytes, and neither its first nor its
-- last slot is null.
pub record IsNode (t : Trie) : Type 0 where
  pub size : length (table t.next) ≡ t.count
  pub bytes : t.min + t.count ≤ 256
  pub refs : t.refcnt < 2 ^ 32
  pub lives : live (table t.next) ≡ t.live_nodes
  pub first : 0 < t.count → one_if (get_or (table t.next) 0 none) ≡ 1
  pub last : 0 < t.count → one_if (get_or (table t.next) (t.count - 1) none) ≡ 1

-- The node at a character, if there is one.
abbrev pub look : ℕ → Trie → Option Trie
look b t = if in_range b t then child b t else none

-- A node all of whose nodes below are in order, and each of these is needed.
pub data IsTrie : Trie → Type 0 where
  tree :
      {t : Trie}
      → IsNode t
      → ((b : ℕ) (n : Trie) → look b t ≡ some n → IsTrie n)
      → ((b : ℕ) (n : Trie) → look b t ≡ some n → is_redundant n ≡ false)
      → IsTrie t

-- How often a key has been added and not been removed.
unfoldable pub count_of : List ℕ → Trie → ℕ
count_of [] t = t.refcnt
count_of (c ∷ cs) t = elim (look c t) [ none ↦ 0 | some n ↦ count_of cs n ]

-- The count of a key below what stands at its first character.
abbrev pub count_below : List ℕ → Option Trie → ℕ
count_below cs none = 0
count_below cs (some n) = count_of cs n

pub count_of_cons :
    (c : ℕ) (cs : List ℕ) (t : Trie) → count_of (c ∷ cs) t ≡ count_below cs (look c t)
unfolding count_of
count_of_cons c cs t = go (look c t)
  where
    go : (o : Option Trie) → elim o [ none ↦ 0 | some n ↦ count_of cs n ] ≡ count_below cs o
    go none = refl
    go (some n) = refl

-- A slot by its position in the table, whatever the count.
abbrev pub at_byte : ℕ → Trie → Option Trie
at_byte b t = if leb t.min b then get_or (table t.next) (b - t.min) none else none

pub look_lem : (b : ℕ) (t : Trie) → length (table t.next) ≡ t.count → look b t ≡ at_byte b t
look_lem b t h = ground (arith, get_or_outside (table t.next) (b - t.min) none)

pub IsTrie-IsNode : (t : Trie) → IsTrie t → IsNode t
IsTrie-IsNode t (tree h below needed) = h

-- A node with a count for a key is needed.
pub counted_needed :
    (key : List ℕ) (t : Trie) → IsNode t → 0 < count_of key t → is_redundant t ≡ false
unfolding count_of
counted_needed [] t h less = ground arith
counted_needed (c ∷ cs) t h less = elim (Option-cases (look c t)) [
  | inl absent ↦ absurd (omega (arith, less, count_of_cons c cs t, ap (count_below cs) absent))
  | inr (n, there) ↦
      let some_slot : at_byte c t ≡ some n = sym (look_lem c t h.size) ∙ there in
      let slot : get_or (table t.next) (c - t.min) none ≡ some n = ground arith in
      ground (arith, live_slot (table t.next) (c - t.min), ap one_if slot, h.lives)
]
