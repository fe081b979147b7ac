-- ===== src/Trie/Single.antt =====
-- A table in which one node is left becomes the single-node representation.
use zmq_cn_comment.Base.{
  get_or_outside, ℕ, ◌+◌, ◌-◌, ◌<◌, ◌≤◌, ◌%◌, ◌≡◌, refl, ap, ◌∙◌, true, false, [], ◌∷◌, none, some,
  Bool-cases, Option-cases, inl, inr, if◌then◌else◌, get_or, ltb, ltb→lt, leb, ◌==◌, arith,
}
use zmq_cn_comment.Trie.{Trie, table, slots, in_range, compact}
use zmq_cn_comment.Trie.Table.{one_if, live, live_two}
use zmq_cn_comment.Trie.Node.{table-slots, IsNode}
use zmq_cn_comment.Trie.Cut.{Pruned, cut-Pruned}
use zmq_cn_comment.Trie.Rest.{rest, left_at, Compacted, at_rest, left_lem}

module _ (c : ℕ) (t : Trie) (h : IsNode t) (inside : in_range c t ≡ true)
    (more : (t.count == 1) ≡ false)
    (there : one_if (get_or (table t.next) (c - t.min) none) ≡ 1) where
  -- If one node is left, it is the one in this slot.
  only_one :
      (j i : ℕ)
      → live (rest c t) ≡ 1
      → one_if (get_or (rest c t) j none) ≡ 1
      → (i == j) ≡ false
      → get_or (rest c t) i none ≡ none
  only_one j i one here other = elim (Option-cases (get_or (rest c t) i none)) [
    | inl absent ↦ absent
    | inr (n, there) ↦ elim (Bool-cases (ltb i j)) [
      | inl before ↦
          absurd
            (omega (arith, live_two (rest c t) i j (ltb→lt i j before), one, here, ap one_if there))
      | inr after ↦
          let less : j < i = ground (arith, other, after) in
          absurd (omega (arith, live_two (rest c t) j i less, one, here, ap one_if there))
    ]
  ]

  one_slot :
      (j : ℕ) (n : Trie) (b : ℕ)
      → live (rest c t) ≡ 1
      → get_or (rest c t) j none ≡ some n
      → (if leb (t.min + j) b then get_or (some n ∷ []) (b - (t.min + j)) none else none)
        ≡ (left_at c t) b
  one_slot j n b one here = elim (Bool-cases (b == t.min + j)) [
    | inl same ↦
        let at : b - t.min ≡ j = ground arith in
        let zeroth : b - (t.min + j) ≡ 0 = ground arith in
        let left : get_or (some n ∷ []) (b - (t.min + j)) none ≡ some n =
          ap (λ i. get_or (some n ∷ []) i none) zeroth in
        let right : get_or (rest c t) (b - t.min) none ≡ some n =
          ap (λ i. get_or (rest c t) i none) at ∙ here in
        ground (arith, left, right)
    | inr other ↦ ground (
      arith,
      get_or_outside (some n ∷ []) (b - (t.min + j)) none,
      only_one j (b - t.min) one (ap one_if here),
    )
  ]

  -- The single-node representation of what is left.
  keep_lem :
      (j : ℕ) (n : Trie)
      → j < t.count
      → live (rest c t) ≡ 1
      → get_or (rest c t) j none ≡ some n
      → Pruned c t
          (record t { min = t.min + j; count = 1; live_nodes = 1; next = slots (some n ∷ []) })
  keep_lem j n below one here =
      cut-Pruned c t h inside (t.min + j) 1 1 (some n ∷ []) refl (omega (arith, h.bytes, below))
        (omega arith) (λ b. one_slot j n b one here ∙ left_lem c t h inside more there b)
        (λ _. refl) (λ _. refl)

  -- Away from both ends at least two nodes are left.
  pub two_left : (c == t.min) ≡ false → (c == t.min + t.count - 1) ≡ false → 2 ≤ live (rest c t)
  two_left up down =
      let first : one_if (get_or (rest c t) 0 none) ≡ 1 =
        ground (arith, at_rest c t h inside more there 0, h.first) in
      let last : one_if (get_or (rest c t) (t.count - 1) none) ≡ 1 =
        ground (arith, at_rest c t h inside more there (t.count - 1), h.last) in
      omega (arith, live_two (rest c t) 0 (t.count - 1) (ground arith), first, last)

  pub compact_one : live (rest c t) ≡ 1 → Compacted c t 1
  unfolding compact
  compact_one one = elim (Bool-cases (c == t.min)) [
    | inl low ↦ elim (Option-cases (get_or (rest c t) (t.count - 1) none)) [
      | inl absent ↦
          absurd (
            ground (arith, ap one_if absent, at_rest c t h inside more there (t.count - 1), h.last))
      | inr (n, there) ↦
          let fits : (t.min + (t.count - 1)) % 256 ≡ t.min + (t.count - 1) =
            ground (arith, h.bytes) in
          (
            _,
            rw (compact, low, table-slots (rest c t), there, fits) refl,
            keep_lem (t.count - 1) n (ground arith) one there,
          )
    ]
    | inr up ↦ elim (Bool-cases (c == t.min + t.count - 1)) [
      | inl high ↦ elim (Option-cases (get_or (rest c t) 0 none)) [
        | inl absent ↦
            absurd (ground (arith, ap one_if absent, at_rest c t h inside more there 0, h.first))
        | inr (n, first) ↦
            let same : t.min ≡ t.min + 0 = omega arith in
            let at : ℕ → Trie = λ low. record t {
              min = low;
              count = 1;
              live_nodes = 1;
              next = slots (some n ∷ []);
            } in
            (
              at (t.min + 0),
              rw (compact, up, high, table-slots (rest c t), first) refl
                  ∙ ap (λ low. some (at low)) same,
              keep_lem 0 n (ground arith) one first,
            )
      ]
      | inr between ↦ absurd (omega (arith, two_left up between, one))
    ]
  ]
