-- ===== src/Trie/Check.antt =====
-- trie_t::check finds whether a key that has been added begins the data.
use zmq_cn_comment.Base.{
  ℕ, ◌≡◌, refl, ap, ap₂, sym, ◌∙◌, Bool, false, not, ◌||◌, List, [], ◌∷◌, Option, none, some,
  Bool-cases, Option-cases, inl, inr, get_or, ◌==◌, arith,
}
use zmq_cn_comment.Trie.{Trie, table, in_range, position, child, check}
use zmq_cn_comment.Trie.Table.{one_if}
use zmq_cn_comment.Trie.Node.{IsNode, look, IsTrie, tree, count_of, count_below, count_of_cons}

-- Whether a key that counts begins the data.
pub some_prefix : (List ℕ → ℕ) → List ℕ → Bool
some_prefix f [] = not (f [] == 0)
some_prefix f (c ∷ cs) = not (f [] == 0) || some_prefix (λ k. f (c ∷ k)) cs

pub some_prefix_same :
    (f g : List ℕ → ℕ) (ds : List ℕ)
    → ((k : List ℕ) → f k ≡ g k)
    → some_prefix f ds ≡ some_prefix g ds
unfolding some_prefix
some_prefix_same f g [] h = ap (λ n. not (n == 0)) (h [])
some_prefix_same f g (c ∷ cs) h =
    ap₂ (λ n b. not (n == 0) || b) (h [])
      (some_prefix_same (λ k. f (c ∷ k)) (λ k. g (c ∷ k)) cs (λ k. h (c ∷ k)))

some_prefix_zero : (ds : List ℕ) → some_prefix (λ k. 0) ds ≡ false
unfolding some_prefix
some_prefix_zero [] = refl
some_prefix_zero (c ∷ cs) = some_prefix_zero cs

-- Below a character only the keys of its node count.
below_lem :
    (c : ℕ) (cs : List ℕ) (t : Trie) (o : Option Trie)
    → look c t ≡ o
    → some_prefix (λ k. count_of (c ∷ k) t) cs ≡ some_prefix (λ k. count_below k o) cs
below_lem c cs t o h =
    some_prefix_same (λ k. count_of (c ∷ k) t) (λ k. count_below k o) cs
      (λ k. count_of_cons c k t ∙ ap (count_below k) h)

-- A table of one slot has a node in it.
single_there : (c : ℕ) (t : Trie) → IsNode t → child c t ≡ none → (t.count == 1) ≡ false
single_there c t h absent = elim (Bool-cases (t.count == 1)) [
  | inr more ↦ more
  | inl one ↦
      let zeroth : position c t ≡ 0 = ground arith in
      let empty : one_if (get_or (table t.next) 0 none) ≡ 0 =
        ap (λ i. one_if (get_or (table t.next) i none)) (sym zeroth) ∙ ap one_if absent in
      absurd (ground (arith, h.first, empty))
]

-- check on a trie in order follows no null pointer, and returns true exactly if some key that has been
-- added more often than removed begins the data.
pub check-some_prefix :
    (ds : List ℕ) (t : Trie) → IsTrie t → check ds t ≡ some (some_prefix (λ k. count_of k t) ds)
unfolding check some_prefix count_of
check-some_prefix [] t h = refl
check-some_prefix (c ∷ cs) t (tree h below needed) = elim (Bool-cases (t.refcnt == 0)) [
  | inr here ↦ rw (check, here) refl
  | inl not_here ↦ elim (Bool-cases (in_range c t)) [
    | inr outside ↦
        let nothing : look c t ≡ none = rw outside refl in
        rw (check, not_here, outside)
          (ap some (sym (below_lem c cs t none nothing ∙ some_prefix_zero cs)))
    | inl inside ↦ elim (Option-cases (child c t)) [
      | inl absent ↦
          let nothing : look c t ≡ none = rw (inside, absent) refl in
          rw (check, not_here, inside, absent, single_there c t h absent)
            (ap some (sym (below_lem c cs t none nothing ∙ some_prefix_zero cs)))
      | inr (n, there) ↦
          let found : look c t ≡ some n = rw (inside, there) refl in
          rw (check, not_here, inside, there)
            (check-some_prefix cs n (below c n found)
              ∙ ap some (sym (below_lem c cs t (some n) found)))
    ]
  ]
]
