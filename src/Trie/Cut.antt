-- ===== src/Trie/Cut.antt =====
-- A node without one of its children, by the table that is left.
use zmq_cn_comment.Base.{
  get_or_outside, ℕ, ◌+◌, ◌-◌, ◌<◌, ◌≤◌, ◌%◌, ◌≡◌, refl, ap, sym, ◌∙◌, true, List, [], Option, none,
  some, if◌then◌else◌, length, get_or, leb, ◌==◌, arith,
}
use zmq_cn_comment.Trie.{Trie, table, slots, in_range, position, child, prune}
use zmq_cn_comment.Trie.Table.{one_if, live}
use zmq_cn_comment.Trie.Node.{table-slots, IsNode, look, look_lem, at_byte}
use zmq_cn_comment.Trie.Extend.{live_one}

-- The node without what stood at the character.
pub record Pruned (c : ℕ) (t t' : Trie) : Type 0 where
  pub node : IsNode t'
  pub looks : (b : ℕ) → look b t' ≡ (if b == c then none else look b t)
  pub same_refs : t'.refcnt ≡ t.refcnt

module _ (c : ℕ) (t : Trie) (h : IsNode t) (inside : in_range c t ≡ true) where
  -- A table for what is left.
  pub cut-Pruned :
      (low n k : ℕ) (l : List (Option Trie))
      → length l ≡ n
      → low + n ≤ 256
      → live l ≡ k
      → ((b : ℕ)
          → (if leb low b then get_or l (b - low) none else none)
            ≡ (if b == c then none else at_byte b t))
      → (0 < n → one_if (get_or l 0 none) ≡ 1)
      → (0 < n → one_if (get_or l (n - 1) none) ≡ 1)
      → Pruned c t (record t { min = low; count = n; live_nodes = k; next = slots l })
  cut-Pruned low n k l size bytes lives holds first last =
      let t' = record t { min = low; count = n; live_nodes = k; next = slots l } in
      let size' : length (table t'.next) ≡ n = ap length (table-slots l) ∙ size in
      record {
        node = record {
          size = size';
          bytes = bytes;
          refs = h.refs;
          lives = ap live (table-slots l) ∙ lives;
          first =
              λ some_there. ap (λ m. one_if (get_or m 0 none)) (table-slots l) ∙ first some_there;
          last = λ some_there.
              ap (λ m. one_if (get_or m (n - 1) none)) (table-slots l) ∙ last some_there;
        };
        looks = λ b.
            look_lem b t' size'
            ∙ ap (λ m. if leb low b then get_or m (b - low) none else none) (table-slots l)
            ∙ holds b
            ∙ ap (λ o. if b == c then none else o) (sym (look_lem b t h.size));
        same_refs = refl;
      }

  -- The only node goes.
  pub single_lem :
      t.count ≡ 1 → one_if (child c t) ≡ 1 → (t' : Trie) × (prune c t ≡ some t') × Pruned c t t'
  unfolding prune
  single_lem one there =
      let zeroth : position c t ≡ 0 = ground arith in
      let first : one_if (get_or (table t.next) 0 none) ≡ 1 =
        ap (λ i. one_if (get_or (table t.next) i none)) (sym zeroth) ∙ there in
      let alone : t.live_nodes ≡ 1 =
        omega (arith, live_one (table t.next) (h.size ∙ one), h.lives, first) in
      let wrap : (t.live_nodes + 65535) % 65536 ≡ 0 = omega (arith, alone) in
      (
        _,
        rw (prune, one, wrap) refl,
        cut-Pruned t.min 0 0 [] refl (omega (arith, h.bytes)) refl
            (λ b. ground (arith, get_or_outside (table t.next) (b - t.min) none, h.size))
            (λ l. absurd (omega arith)) (λ l. absurd (omega arith)),
      )
