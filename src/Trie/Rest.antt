-- ===== src/Trie/Rest.antt =====
-- What is left of a table once the node of a character has been taken out of it.
use zmq_cn_comment.Base.{
  ℕ, ◌+◌, ◌-◌, ◌≤◌, ◌≡◌, ◌∙◌, true, false, List, Option, none, some, Bool-cases, inl, inr,
  if◌then◌else◌, length, get_or, set, length-set, get_or-set, leb, ◌==◌, arith,
}
use zmq_cn_comment.Trie.{Trie, table, slots, in_range, compact}
use zmq_cn_comment.Trie.Table.{one_if, live, live-set, live_slot}
use zmq_cn_comment.Trie.Node.{IsNode, at_byte}
use zmq_cn_comment.Trie.Cut.{Pruned}

-- The table with a null pointer at the character.
abbrev pub rest : ℕ → Trie → List (Option Trie)
rest c t = set (table t.next) (c - t.min) none

-- What the node still has at each character.
abbrev pub left_at : ℕ → Trie → ℕ → Option Trie
left_at c t b = if leb t.min b then get_or (rest c t) (b - t.min) none else none

abbrev pub kept : ℕ → Trie → ℕ → Trie
kept c t k = record t { live_nodes = k; next = slots (rest c t) }

abbrev pub Compacted : ℕ → Trie → ℕ → Type 0
Compacted c t k = (t' : Trie) × (compact c (kept c t k) ≡ some t') × Pruned c t t'

module _ (c : ℕ) (t : Trie) (h : IsNode t) (inside : in_range c t ≡ true)
    (more : (t.count == 1) ≡ false)
    (there : one_if (get_or (table t.next) (c - t.min) none) ≡ 1) where
  pub at_rest :
      (i : ℕ)
      → get_or (rest c t) i none ≡ (if i == c - t.min then none else get_or (table t.next) i none)
  at_rest i = get_or-set (table t.next) (c - t.min) i none none (ground (arith, h.size))

  pub size_rest : length (rest c t) ≡ t.count
  size_rest = length-set (table t.next) (c - t.min) none ∙ h.size

  pub live-rest : live (rest c t) + 1 ≡ t.live_nodes
  live-rest =
      omega
        (arith, live-set (table t.next) (c - t.min) none (ground (arith, h.size)), there, h.lives)

  -- What is left is at least one.
  pub some_left : 1 ≤ live (rest c t)
  some_left = elim (Bool-cases (c == t.min)) [
    | inl low ↦ ground (arith, live_slot (rest c t) (t.count - 1), at_rest (t.count - 1), h.last)
    | inr up ↦ ground (arith, live_slot (rest c t) 0, at_rest 0, h.first)
  ]

  pub left_lem : (b : ℕ) → left_at c t b ≡ (if b == c then none else at_byte b t)
  left_lem b = ground (arith, at_rest (b - t.min))
