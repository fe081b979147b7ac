-- ===== src/Trie/Prune.antt =====
-- A node is pruned from its table, and the table compacted.
use zmq_cn_comment.Base.{
  ℕ, ◌+◌, ◌-◌, ◌%◌, ◌≡◌, refl, ap, sym, subst, ◌∙◌, true, false, none, some, Bool-cases, inl, inr,
  if◌then◌else◌, get_or, set, ltb, ◌==◌, arith,
}
use zmq_cn_comment.Trie.{
  Trie, nil, table, slots, in_range, position, child, set_child, compact, prune,
}
use zmq_cn_comment.Trie.Table.{one_if, live, live-length}
use zmq_cn_comment.Trie.Node.{IsNode}
use zmq_cn_comment.Trie.Cut.{Pruned, cut-Pruned, single_lem}
use zmq_cn_comment.Trie.Rest.{
  rest, kept, Compacted, at_rest, size_rest, live-rest, some_left, left_lem,
}
use zmq_cn_comment.Trie.Single.{compact_one}
use zmq_cn_comment.Trie.Compact.{compact_left, compact_right}

module _ (c : ℕ) (t : Trie) (h : IsNode t) (inside : in_range c t ≡ true)
    (more : (t.count == 1) ≡ false)
    (there : one_if (get_or (table t.next) (c - t.min) none) ≡ 1) where
  compact_none :
      (live (rest c t) == 1) ≡ false
      → (c == t.min) ≡ false
      → (c == t.min + t.count - 1) ≡ false
      → Compacted c t (live (rest c t))
  unfolding compact
  compact_none more_left up down = (
    _,
    rw (compact, more_left, up, down) refl,
    cut-Pruned c t h inside t.min t.count (live (rest c t)) (rest c t)
        (size_rest c t h inside more there) h.bytes refl (left_lem c t h inside more there)
        (λ l. ground (arith, at_rest c t h inside more there 0, h.first))
        (λ l. ground (arith, at_rest c t h inside more there (t.count - 1), h.last)),
  )

  -- Whichever way the table is compacted.
  compact_lem : Compacted c t (live (rest c t))
  compact_lem = elim (Bool-cases (live (rest c t) == 1)) [
    | inl one ↦
        let alone : live (rest c t) ≡ 1 = ground arith in
        subst (Compacted c t) (sym alone) (compact_one c t h inside more there alone)
    | inr more_left ↦ elim (Bool-cases (c == t.min)) [
      | inl low ↦ compact_left c t h inside more there more_left low
      | inr up ↦ elim (Bool-cases (c == t.min + t.count - 1)) [
        | inl high ↦ compact_right c t h inside more there more_left up high
        | inr down ↦ compact_none more_left up down
      ]
    ]
  ]

  table_lem : (t' : Trie) × (prune c t ≡ some t') × Pruned c t t'
  unfolding prune
  table_lem =
      let wrap : (t.live_nodes + 65535) % 65536 ≡ live (rest c t) = omega (
        arith,
        live-rest c t h inside more there,
        live-length (rest c t),
        size_rest c t h inside more there,
        h.bytes,
      ) in
      let some_more : ltb 1 t.live_nodes ≡ true =
        ground (arith, live-rest c t h inside more there, some_left c t h inside more there) in
      let (t', done, ok) = compact_lem in
      let at : position c t ≡ c - t.min = rw more refl in
      let dec = (t.live_nodes + 65535) % 65536 in
      let alone =
        if dec == 0 then some (record t { count = 0; live_nodes = dec; next = nil }) else none in
      let cut = compact c (record (set_child c none t) { live_nodes = dec }) in
      (
        t',
        ap (λ b. if b then alone else if ltb 1 t.live_nodes then cut else none) more
            ∙ ap (λ b. if b then cut else none) some_more
            ∙ ap
                (λ p.
                  compact c
                    (record t { live_nodes = dec; next = slots (set (table t.next) p none) }))
                at
            ∙ ap (λ k. compact c (kept c t k)) wrap
            ∙ done,
        ok,
      )

module _ (c : ℕ) (t : Trie) (h : IsNode t) (inside : in_range c t ≡ true) where
  -- The node at the character goes, and no assertion fails.
  pub prune-Pruned : one_if (child c t) ≡ 1 → (t' : Trie) × (prune c t ≡ some t') × Pruned c t t'
  prune-Pruned there = elim (Bool-cases (t.count == 1)) [
    | inl one ↦ single_lem c t h inside (ground arith) there
    | inr more ↦
        let at : position c t ≡ c - t.min = rw more refl in
        table_lem c t h inside more
          (ap (λ i. one_if (get_or (table t.next) i none)) (sym at) ∙ there)
  ]
