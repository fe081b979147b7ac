-- ===== src/Trie/Scan.antt =====
-- The searches for a slot that is not null, from the left and from the right.
use zmq_cn_comment.Base.{
  ℕ, zero, suc, ◌+◌, ◌<◌, ◌≤◌, ◌≡◌, refl, ap, ◌∙◌, Bool-cases, List, Option, none, some,
  Option-cases, inl, inr, get_or, ◌==◌, arith,
}
use zmq_cn_comment.Trie.{Trie, scan_left, scan_right}
use zmq_cn_comment.Trie.Table.{one_if}

module _ (l : List (Option Trie)) where
  pub scan_left_lem :
      (n i k : ℕ)
      → i ≤ k
      → k < i + n
      → one_if (get_or l k none) ≡ 1
      → (j : ℕ) × (scan_left l n i ≡ some j)
        × (i ≤ j)
        × (j ≤ k)
        × (one_if (get_or l j none) ≡ 1)
        × ((m : ℕ) → i ≤ m → m < j → get_or l m none ≡ none)
  unfolding scan_left
  scan_left_lem zero i k low high there = absurd (omega (arith, low, high))
  scan_left_lem (suc n) i k low high there = elim (Option-cases (get_or l i none)) [
    | inr (t, here) ↦ (
      i,
      rw (scan_left, here) refl,
      omega arith,
      low,
      ap one_if here,
      λ m le lt. absurd (omega (arith, le, lt)),
    )
    | inl absent ↦
        let past : i + 1 ≤ k = elim (Bool-cases (i == k)) [
          | inl same ↦ absurd (ground (arith, ap one_if absent, there))
          | inr other ↦ ground (arith, low)
        ] in
        let (j, found, le, most, live, before) =
          scan_left_lem n (i + 1) k past (omega (arith, high)) there in
        (
          j,
          rw (scan_left, absent) found,
          omega (arith, le),
          most,
          live,
          λ m from below. elim (Bool-cases (m == i)) [
            | inl same ↦ ap (λ x. get_or l x none) (ground arith) ∙ absent
            | inr other ↦ before m (ground (arith, from)) below
          ],
        )
  ]

  pub scan_right_lem :
      (n k : ℕ)
      → k < n
      → one_if (get_or l k none) ≡ 1
      → (j : ℕ) × (scan_right l n ≡ some (suc j))
        × (k ≤ j)
        × (j < n)
        × (one_if (get_or l j none) ≡ 1)
        × ((m : ℕ) → j < m → m < n → get_or l m none ≡ none)
  unfolding scan_right
  scan_right_lem zero k high there = absurd (omega (arith, high))
  scan_right_lem (suc n) k high there = elim (Option-cases (get_or l n none)) [
    | inr (t, here) ↦ (
      n,
      rw (scan_right, here) refl,
      omega (arith, high),
      omega arith,
      ap one_if here,
      λ m from to. absurd (omega (arith, from, to)),
    )
    | inl absent ↦
        let before : k < n = elim (Bool-cases (n == k)) [
          | inl same ↦ absurd (ground (arith, ap one_if absent, there))
          | inr other ↦ ground (arith, high)
        ] in
        let (j, found, le, less, live, after) = scan_right_lem n k before there in
        (
          j,
          rw (scan_right, absent) found,
          le,
          omega (arith, less),
          live,
          λ m from to. elim (Bool-cases (m == n)) [
            | inl same ↦ ap (λ x. get_or l x none) (ground arith) ∙ absent
            | inr other ↦ after m from (ground (arith, to))
          ],
        )
  ]
