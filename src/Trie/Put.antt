-- ===== src/Trie/Put.antt =====
-- A node is put into the slot of a character.
use zmq_cn_comment.Base.{
  ℕ, ◌+◌, ◌-◌, ◌<◌, ◌≤◌, ◌^◌, ◌≡◌, refl, ap, sym, subst, ◌∙◌, true, false, none, some, Bool-cases,
  Option-cases, inl, inr, if◌then◌else◌, length, get_or, set, length-set, get_or-set, ltb, leb,
  ◌==◌, arith,
}
use zmq_cn_comment.Trie.{Trie, table, position, child, set_child, count_new, is_redundant, or_new}
use zmq_cn_comment.Trie.Table.{one_if, live, live-set, live_slot}
use zmq_cn_comment.Trie.Node.{table-slots, IsNode, look, look_lem, IsTrie, tree}
use zmq_cn_comment.Trie.Extend.{Covers, live_one}

some_inj : {m n : Trie} → some m ≡ some n → m ≡ n
some_inj {m} {n} h = ap (or_new) h

module _ (c : ℕ) (t e : Trie) (v : Covers c t e) where
  -- The slot of the character is where it is whatever the count.
  position_lem : position c e ≡ c - e.min
  position_lem = ground (arith, v.low, v.high)

  slot_inside : position c e < length (table e.next)
  slot_inside = omega (arith, v.low, v.high, v.size, position_lem)

  some_left : (e.count == 1) ≡ false → 1 ≤ e.live_nodes
  some_left more = elim v.first [
    | inr here ↦ omega (arith, live_slot (table e.next) 0, here, v.lives)
    | inl at ↦ elim v.last [
      | inr here ↦ omega (arith, live_slot (table e.next) (e.count - 1), here, v.lives)
      | inl end ↦ absurd (ground arith)
    ]
  ]

  -- One more node is alive, if there was none at the character.
  pub count_new_lem :
      (live : ℕ) × (count_new c e ≡ some (record e { live_nodes = live }))
      × (live + one_if (child c e) ≡ e.live_nodes + 1)
  unfolding count_new
  count_new_lem = elim (Option-cases (child c e)) [
    | inr (n, there) ↦
        (e.live_nodes, rw (count_new, there) refl, ap (λ o. e.live_nodes + one_if o) there)
    | inl absent ↦ (
      e.live_nodes + 1,
      rw (count_new, absent, counts absent) refl,
      omega (arith, ap one_if absent),
    )
  ]
    where
      counts :
          child c e ≡ none
          → (if e.count == 1 then (e.live_nodes + 1) == 1 else ltb 1 (e.live_nodes + 1)) ≡ true
      counts absent = elim (Bool-cases (e.count == 1)) [
        | inl one ↦
            let zeroth : position c e ≡ 0 = ground arith in
            let empty : one_if (get_or (table e.next) 0 none) ≡ 0 =
              ap (λ i. one_if (get_or (table e.next) i none)) (sym zeroth) ∙ ap one_if absent in
            ground (arith, live_one (table e.next) (v.size ∙ ground arith), empty, v.lives)
        | inr more ↦ ground (arith, more, some_left more)
      ]

  -- The node with another one at the character.
  abbrev put : Trie → ℕ → Trie
  put n live = set_child c (some n) (record e { live_nodes = live })

  held :
      (n : Trie) (live : ℕ) (i : ℕ)
      → get_or (table (put n live).next) i none
        ≡ (if i == c - e.min then some n else get_or (table e.next) i none)
  held n live i =
      ap (λ l. get_or l i none) (table-slots (set (table e.next) (position c e) (some n)))
      ∙ get_or-set (table e.next) (position c e) i (some n) none slot_inside
      ∙ ap (λ k. if i == k then some n else get_or (table e.next) i none) position_lem

  put-IsNode :
      (n : Trie) (k : ℕ)
      → e.refcnt < 2 ^ 32
      → k + one_if (child c e) ≡ e.live_nodes + 1
      → IsNode (put n k)
  put-IsNode n k refs counts = record {
    size = ap length (table-slots _) ∙ length-set (table e.next) (position c e) (some n) ∙ v.size;
    bytes = v.bytes;
    refs = refs;
    lives =
        ap live (table-slots _)
        ∙ omega
            (arith, live-set (table e.next) (position c e) (some n) slot_inside, v.lives, counts);
    first = λ _. elim v.first [
      | inl at ↦ ap one_if (held n k 0) ∙ ground arith
      | inr here ↦ ap one_if (held n k 0) ∙ ground arith
    ];
    last = λ _. elim v.last [
      | inl at ↦ ap one_if (held n k (e.count - 1)) ∙ ground (arith, v.low)
      | inr here ↦ ap one_if (held n k (e.count - 1)) ∙ ground arith
    ];
  }

  pub look-put :
      (n : Trie) (k b : ℕ)
      → e.refcnt < 2 ^ 32
      → k + one_if (child c e) ≡ e.live_nodes + 1
      → length (table t.next) ≡ t.count
      → look b (put n k) ≡ (if b == c then some n else look b t)
  look-put n k b refs counts size =
      look_lem b (put n k) ((put-IsNode n k refs counts).size)
      ∙ ap (λ o. if leb e.min b then o else none) (held n k (b - e.min))
      ∙ ground (arith, look_lem b t size, v.holds b, v.low)

  -- What was in order is in order with the new node.
  pub put-IsTrie :
      (n : Trie) (k : ℕ)
      → IsTrie t
      → IsTrie n
      → is_redundant n ≡ false
      → e.refcnt < 2 ^ 32
      → k + one_if (child c e) ≡ e.live_nodes + 1
      → IsTrie (put n k)
  put-IsTrie n k (tree h below needed) hn used refs counts =
      tree (put-IsNode n k refs counts)
        (λ b m at. elim (Bool-cases (b == c)) [
          | inl here ↦
              let same : some n ≡ some m = ground (arith, look-put n k b refs counts h.size) in
              subst IsTrie (some_inj same) hn
          | inr away ↦ below b m (ground (arith, look-put n k b refs counts h.size))
        ])
        (λ b m at. elim (Bool-cases (b == c)) [
          | inl here ↦
              let same : some n ≡ some m = ground (arith, look-put n k b refs counts h.size) in
              subst (λ z. is_redundant z ≡ false) (some_inj same) used
          | inr away ↦ needed b m (ground (arith, look-put n k b refs counts h.size))
        ])
