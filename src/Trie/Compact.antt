-- ===== src/Trie/Compact.antt =====
-- A table is compacted from the left or from the right.
use zmq_cn_comment.Base.{
  get_or_outside, get_or-drop, get_or-take, ℕ, suc, ◌+◌, ◌-◌, ◌<◌, ◌≤◌, ◌%◌, ◌≡◌, ap, sym, ◌∙◌,
  true, false, none, some, Bool-cases, inl, inr, if◌then◌else◌, length, get_or, take, drop,
  length-drop, length-take, ltb, ltb→lt, leb, ◌==◌, arith,
}
use zmq_cn_comment.Trie.{Trie, table, slots, in_range, compact, scan_left, scan_right}
use zmq_cn_comment.Trie.Table.{one_if, live, live-drop, live-take}
use zmq_cn_comment.Trie.Node.{table-slots, IsNode}
use zmq_cn_comment.Trie.Scan.{scan_left_lem, scan_right_lem}
use zmq_cn_comment.Trie.Cut.{Pruned, cut-Pruned}
use zmq_cn_comment.Trie.Rest.{rest, left_at, kept, Compacted, at_rest, size_rest, left_lem}

module _ (c : ℕ) (t : Trie) (h : IsNode t) (inside : in_range c t ≡ true)
    (more : (t.count == 1) ≡ false)
    (there : one_if (get_or (table t.next) (c - t.min) none) ≡ 1) where
  left_found :
      (i : ℕ)
      → (live (rest c t) == 1) ≡ false
      → (c == t.min) ≡ true
      → scan_left (rest c t) (t.count - 1) 1 ≡ some i
      → 1 ≤ i
      → i < t.count
      → compact c (kept c t (live (rest c t)))
        ≡ some (record t {
          min = i + t.min;
          count = t.count - i;
          live_nodes = live (rest c t);
          next = slots (drop i (rest c t));
        })
  unfolding compact
  left_found i more_left low found from below =
      let fits : (i + t.min) % 256 ≡ i + t.min = omega (arith, h.bytes, below) in
      let step : i + t.min - t.min ≡ i = omega arith in
      let up : ltb t.min (i + t.min) ≡ true = ground (arith, from) in
      let inside_table : ltb i t.count ≡ true = ground (arith, below) in
      rw (compact, more_left, low, table-slots (rest c t), found) rw fits rw step rw
        (up, inside_table)
        (ap
          (λ l. some (record t {
            min = i + t.min;
            count = t.count - i;
            live_nodes = live (rest c t);
            next = slots (drop i l);
          }))
          (table-slots (rest c t)))

  -- The slots before the first node are dropped.
  drop_lem :
      (i : ℕ)
      → 1 ≤ i
      → i < t.count
      → one_if (get_or (rest c t) i none) ≡ 1
      → one_if (get_or (rest c t) (t.count - 1) none) ≡ 1
      → ((m : ℕ) → m < i → get_or (rest c t) m none ≡ none)
      → Pruned c t (record t {
        min = i + t.min;
        count = t.count - i;
        live_nodes = live (rest c t);
        next = slots (drop i (rest c t));
      })
  drop_lem i from below here last before =
      cut-Pruned c t h inside (i + t.min) (t.count - i) (live (rest c t)) (drop i (rest c t))
        (omega (arith, length-drop i (rest c t), size_rest c t h inside more there))
        (omega (arith, h.bytes, below)) (live-drop i (rest c t) before)
        (λ b. dropped b ∙ left_lem c t h inside more there b)
        (λ l. at_drop 0 i (omega arith) ∙ here)
        (λ l. at_drop (t.count - i - 1) (t.count - 1) (omega (arith, below)) ∙ last)
    where
      at_drop :
          (k m : ℕ)
          → i + k ≡ m
          → one_if (get_or (drop i (rest c t)) k none) ≡ one_if (get_or (rest c t) m none)
      at_drop k m e =
          ap one_if (get_or-drop i (rest c t) k none ∙ ap (λ x. get_or (rest c t) x none) e)

      dropped :
          (b : ℕ)
          → (if leb (i + t.min) b then get_or (drop i (rest c t)) (b - (i + t.min)) none else none)
            ≡ (left_at c t) b
      dropped b = elim (Bool-cases (leb (i + t.min) b)) [
        | inl past ↦
            let at : i + (b - (i + t.min)) ≡ b - t.min = ground arith in
            let moved : get_or (drop i (rest c t)) (b - (i + t.min)) none
                ≡ get_or (rest c t) (b - t.min) none =
              get_or-drop i (rest c t) (b - (i + t.min)) none
              ∙ ap (λ x. get_or (rest c t) x none) at in
            ground (arith, moved)
        | inr early ↦ ground (arith, before (b - t.min))
      ]

  pub compact_left :
      (live (rest c t) == 1) ≡ false → (c == t.min) ≡ true → Compacted c t (live (rest c t))
  compact_left more_left low =
      let last : one_if (get_or (rest c t) (t.count - 1) none) ≡ 1 =
        ground (arith, at_rest c t h inside more there (t.count - 1), h.last) in
      let (i, found, from, to, here, before) =
        scan_left_lem (rest c t) (t.count - 1) 1 (t.count - 1) (ground arith) (ground arith) last in
      let below : i < t.count = omega (arith, from, to) in
      (
        _,
        left_found i more_left low found from below,
        drop_lem i from below here last (λ m lt. elim (Bool-cases (m == 0)) [
          | inl zeroth ↦ ground (arith, at_rest c t h inside more there m)
          | inr later ↦ before m (ground arith) lt
        ]),
      )

  -- The slots after the last node are dropped.
  take_lem :
      (j : ℕ)
      → suc j < t.count
      → one_if (get_or (rest c t) 0 none) ≡ 1
      → one_if (get_or (rest c t) j none) ≡ 1
      → ((m : ℕ) → j < m → get_or (rest c t) m none ≡ none)
      → Pruned c t (record t {
        count = suc j;
        live_nodes = live (rest c t);
        next = slots (take (suc j) (rest c t));
      })
  take_lem j below first here after =
      cut-Pruned c t h inside t.min (suc j) (live (rest c t)) (take (suc j) (rest c t)) taken
        (omega (arith, h.bytes, below))
        (live-take (suc j) (rest c t) (λ k le. after k (omega (arith, le))))
        (λ b.
          ap (λ o. if leb t.min b then o else none) (at_take (b - t.min))
          ∙ left_lem c t h inside more there b)
        (λ l. ap one_if (at_take 0) ∙ first)
        (λ l.
          ap one_if (at_take (suc j - 1))
          ∙ ap (λ k. one_if (get_or (rest c t) k none)) last_at
          ∙ here)
    where
      taken : length (take (suc j) (rest c t)) ≡ suc j
      taken =
          omega (arith, length-take (suc j) (rest c t), size_rest c t h inside more there, below)

      last_at : suc j - 1 ≡ j
      last_at = omega arith

      at_take : (k : ℕ) → get_or (take (suc j) (rest c t)) k none ≡ get_or (rest c t) k none
      at_take k = elim (Bool-cases (ltb k (suc j))) [
        | inl inside ↦ get_or-take (suc j) (rest c t) k none (ltb→lt k (suc j) inside)
        | inr past ↦
            get_or_outside (take (suc j) (rest c t)) k none (ground (arith, taken))
            ∙ sym (after k (ground arith))
      ]

  right_found :
      (j : ℕ)
      → (live (rest c t) == 1) ≡ false
      → (c == t.min) ≡ false
      → (c == t.min + t.count - 1) ≡ true
      → scan_right (rest c t) (t.count - 1) ≡ some (suc j)
      → compact c (kept c t (live (rest c t)))
        ≡ some (record t {
          count = suc j;
          live_nodes = live (rest c t);
          next = slots (take (suc j) (rest c t));
        })
  unfolding compact
  right_found j more_left up high found =
      rw (compact, more_left, up, high, table-slots (rest c t), found)
        (ap
          (λ l. some (record t {
            count = suc j;
            live_nodes = live (rest c t);
            next = slots (take (suc j) l);
          }))
          (table-slots (rest c t)))

  pub compact_right :
      (live (rest c t) == 1) ≡ false
      → (c == t.min) ≡ false
      → (c == t.min + t.count - 1) ≡ true
      → Compacted c t (live (rest c t))
  compact_right more_left up high =
      let first : one_if (get_or (rest c t) 0 none) ≡ 1 =
        ground (arith, at_rest c t h inside more there 0, h.first) in
      let (j, found, from, to, here, after) =
        scan_right_lem (rest c t) (t.count - 1) 0 (ground arith) first in
      (
        _,
        right_found j more_left up high found,
        take_lem j (omega (arith, to)) first here (λ m lt. elim (Bool-cases (ltb m (t.count - 1))) [
          | inl inside_table ↦ after m lt (ltb→lt m (t.count - 1) inside_table)
          | inr past ↦ elim (Bool-cases (m == t.count - 1)) [
            | inl end ↦ ground (arith, at_rest c t h inside more there m)
            | inr outside ↦
                get_or_outside (rest c t) m none (ground (arith, size_rest c t h inside more there))
          ]
        ]),
      )
