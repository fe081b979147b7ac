-- ===== src/Trie/Remove.antt =====
-- trie_t::rm takes one from the count of its key, if it is there, and from no other.
use zmq_cn_comment.Base.{
  ℕ, ◌+◌, ◌-◌, ◌≡◌, refl, ap, sym, subst, ◌∙◌, Bool, true, false, not, ◌||◌, List, [], ◌∷◌, Option,
  none, some, Bool-cases, Option-cases, inl, inr, if◌then◌else◌, ◌==◌, arith,
}
use zmq_cn_comment.Pipe.{◌>>=◌}
use zmq_cn_comment.Trie.{Trie, in_range, child, set_child, prune, rm, is_redundant}
use zmq_cn_comment.Trie.Table.{one_if}
use zmq_cn_comment.Trie.Node.{
  look, IsTrie, tree, IsTrie-IsNode, count_of, count_below, count_of_cons, counted_needed,
}
use zmq_cn_comment.Trie.Extend.{Covers, same-Covers}
use zmq_cn_comment.Trie.Put.{put-IsTrie, look-put}
use zmq_cn_comment.Trie.Add.{Counts, put-Counts, root_only}
use zmq_cn_comment.Trie.Cut.{Pruned}
use zmq_cn_comment.Trie.Prune.{prune-Pruned}

-- A node that is redundant counts no key.
redundant_counts : (n : Trie) → IsTrie n → is_redundant n ≡ true → (k : List ℕ) → 0 ≡ count_of k n
redundant_counts n h r k = elim (Bool-cases (0 == count_of k n)) [
  | inl zeroth ↦ ground arith
  | inr counted ↦ cc (counted_needed k n (IsTrie-IsNode n h) (ground arith))
]

Pruned-IsTrie : (c : ℕ) (t t' : Trie) → IsTrie t → Pruned c t t' → IsTrie t'
Pruned-IsTrie c t t' (tree h below needed) p =
    tree p.node
      (λ b n at. elim (Bool-cases (b == c)) [
        | inl here ↦ absurd (ground (arith, p.looks b))
        | inr away ↦ below b n (ground (arith, p.looks b))
      ])
      (λ b n at. elim (Bool-cases (b == c)) [
        | inl here ↦ absurd (ground (arith, p.looks b))
        | inr away ↦ needed b n (ground (arith, p.looks b))
      ])

-- A key that is not there changes nothing.
same-Counts :
    (key : List ℕ) (t : Trie) → IsTrie t → count_of key t ≡ 0 → Counts key (count_of key t - 1) t t
same-Counts key t h zeroth = record {
  in_order = h;
  here = omega (arith, zeroth);
  elsewhere = λ k other. refl;
}

module _ (c : ℕ) (cs : List ℕ) (t n n' : Trie) (h : IsTrie t) (at : look c t ≡ some n)
    (inside : in_range c t ≡ true) (there : child c t ≡ some n) (m : ℕ)
    (counts : Counts cs m n n') where
  -- The child is pruned, or stays.
  below_lem :
      (t' : Trie) × ((if is_redundant n' then prune c t else some (set_child c (some n') t))
        ≡ some t')
      × Counts (c ∷ cs) m t t'
  below_lem = elim (Bool-cases (is_redundant n')) [
    | inl gone ↦
        let (t', done, p) = prune-Pruned c t (IsTrie-IsNode t h) inside (ap one_if there) in
        (
          t',
          rw gone done,
          put-Counts c cs m t t' n n' none p.looks (redundant_counts n' counts.in_order gone)
              p.same_refs (inl at) (Pruned-IsTrie c t t' h p) counts,
        )
    | inr used ↦
        let v : Covers c t t =
          same-Covers c t (IsTrie-IsNode t h) (ground (arith, (IsTrie-IsNode t h).bytes)) inside in
        let lives : t.live_nodes + one_if (child c t) ≡ t.live_nodes + 1 =
          ap (λ o. t.live_nodes + one_if o) there in
        let refs = (IsTrie-IsNode t h).refs in
        (
          set_child c (some n') t,
          rw used refl,
          put-Counts c cs m t (set_child c (some n') t) n n' (some n')
              (λ b. look-put c t t v n' t.live_nodes b refs lives (IsTrie-IsNode t h).size)
              (λ k. refl) refl (inl at)
              (put-IsTrie c t t v n' t.live_nodes h counts.in_order used refs lives) counts,
        )
  ]

child_of : (c : ℕ) (t n : Trie) → IsTrie t → look c t ≡ some n → IsTrie n
child_of c t n (tree h below needed) at = below c n at

abbrev after_rm : ℕ → Trie → Bool × Trie → Option (Bool × Trie)
after_rm c t r = (if is_redundant r.1 then prune c t else some (set_child c (some r.1) t)) >>= λ t'.
    some (r.0, t')

rm_outside :
    (c : ℕ) (cs : List ℕ) (t : Trie)
    → t.count == 0 || not (in_range c t) ≡ true
    → rm (c ∷ cs) t ≡ some (false, t)
unfolding rm
rm_outside c cs t outside = rw (rm, outside) refl

rm_absent :
    (c : ℕ) (cs : List ℕ) (t : Trie)
    → t.count == 0 || not (in_range c t) ≡ false
    → child c t ≡ none
    → rm (c ∷ cs) t ≡ some (false, t)
unfolding rm
rm_absent c cs t covered absent = rw (rm, covered, absent) refl

rm_there :
    (c : ℕ) (cs : List ℕ) (t n : Trie)
    → t.count == 0 || not (in_range c t) ≡ false
    → child c t ≡ some n
    → rm (c ∷ cs) t ≡ (rm cs n >>= λ r. after_rm c t r)
unfolding rm
rm_there c cs t n covered there = rw (rm, covered, there) refl

pub rm-Counts :
    (key : List ℕ) (t : Trie)
    → IsTrie t
    → (t' : Trie) × (rm key t ≡ some (count_of key t == 1, t'))
      × Counts key (count_of key t - 1) t t'
unfolding rm count_of
rm-Counts [] t (tree h below needed) = elim (Bool-cases (t.refcnt == 0)) [
  | inl zeroth ↦
      let none_left : t.refcnt ≡ 0 = ground arith in
      let answer : false ≡ (t.refcnt == 1) = ground (arith, none_left) in
      (
        t,
        rw (rm, zeroth) (ap (λ (b : Bool). some (b, t)) answer),
        same-Counts [] t (tree h below needed) none_left,
      )
  | inr some_there ↦
      let answer : (t.refcnt - 1 == 0) ≡ (t.refcnt == 1) = ground arith in
      (
        record t { refcnt = t.refcnt - 1 },
        rw (rm, some_there)
            (ap (λ (b : Bool). some (b, record t { refcnt = t.refcnt - 1 })) answer),
        record {
          in_order =
              tree
                (record {
                  size = h.size;
                  bytes = h.bytes;
                  refs = omega (arith, h.refs);
                  lives = h.lives;
                  first = h.first;
                  last = h.last;
                })
                below needed;
          here = refl;
          elsewhere = root_only t (t.refcnt - 1);
        },
      )
]
rm-Counts (c ∷ cs) t h = elim (Bool-cases (t.count == 0 || not (in_range c t))) [
  | inl outside ↦
      let nothing : look c t ≡ none = ground arith in
      let zeroth : count_of (c ∷ cs) t ≡ 0 = count_of_cons c cs t ∙ ap (count_below cs) nothing in
      (
        t,
        rm_outside c cs t outside ∙ ap (λ k. some (k == 1, t)) (sym zeroth),
        same-Counts (c ∷ cs) t h zeroth,
      )
  | inr covered ↦
      let inside : in_range c t ≡ true = ground arith in
      elim (Option-cases (child c t)) [
        | inl absent ↦
            let nothing : look c t ≡ none = rw (inside, absent) refl in
            let zeroth : count_of (c ∷ cs) t ≡ 0 =
              count_of_cons c cs t ∙ ap (count_below cs) nothing in
            (
              t,
              rm_absent c cs t covered absent ∙ ap (λ k. some (k == 1, t)) (sym zeroth),
              same-Counts (c ∷ cs) t h zeroth,
            )
        | inr (n, there) ↦
            let at : look c t ≡ some n = rw (inside, there) refl in
            let same : count_of (c ∷ cs) t ≡ count_of cs n =
              count_of_cons c cs t ∙ ap (count_below cs) at in
            let (n', removed, counts) = rm-Counts cs n (child_of c t n h at) in
            let (t', done, ok) =
              below_lem c cs t n n' h at inside there (count_of cs n - 1) counts in
            (
              t',
              rm_there c cs t n covered there
                  ∙ ap (λ o. o >>= λ r. after_rm c t r) removed
                  ∙ ap (λ o. o >>= λ t'. some (count_of cs n == 1, t')) done
                  ∙ ap (λ k. some (k == 1, t')) (sym same),
              subst (λ k. Counts (c ∷ cs) (k - 1) t t') (sym same) ok,
            )
      ]
]
