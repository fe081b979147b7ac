-- ===== src/Trie/Run.antt =====
-- The trie as a multiset of keys, under any sequence of calls.
use zmq_cn_comment.Base.{
  ℕ, suc, ◌+◌, ◌-◌, ◌<◌, ◌^◌, ◌≡◌, refl, ap, ap₂, sym, ◌∙◌, Bool, true, false, ◌&&◌, List, [], ◌∷◌,
  Option, some, Bool-cases, inl, inr, if◌then◌else◌, length, ◌==◌, arith,
}
use zmq_cn_comment.Pipe.{◌>>=◌}
use zmq_cn_comment.Trie.{Trie, start, add, rm, check}
use zmq_cn_comment.Trie.Node.{IsTrie, count_of}
use zmq_cn_comment.Trie.Check.{some_prefix, some_prefix_same, check-some_prefix}
use zmq_cn_comment.Trie.Add.{Counts, all_bytes, add-Counts, start-IsTrie, count_of-start}
use zmq_cn_comment.Trie.Remove.{rm-Counts}

pub data Call : Type 0 where
  add_key remove_key check_data : List ℕ → Call

-- What the trie answers; none if an assertion fails.
pub answers : List Call → Trie → Option (List Bool)
answers [] t = some []
answers (add_key k ∷ cs) t = add k t >>= λ r. answers cs r.1 >>= λ bs. some (r.0 ∷ bs)
answers (remove_key k ∷ cs) t = rm k t >>= λ r. answers cs r.1 >>= λ bs. some (r.0 ∷ bs)
answers (check_data d ∷ cs) t = check d t >>= λ b. answers cs t >>= λ bs. some (b ∷ bs)

abbrev pub same_key : List ℕ → List ℕ → Bool
same_key [] [] = true
same_key [] (c ∷ cs) = false
same_key (b ∷ bs) [] = false
same_key (b ∷ bs) (c ∷ cs) = (b == c) && same_key bs cs

-- A multiset of keys.
abbrev pub Keys : Type 0
Keys = List ℕ → ℕ

abbrev pub update : List ℕ → ℕ → Keys → Keys
update key n f k = if same_key k key then n else f k

-- What a multiset answers: whether the key is new, whether it was the last one, and whether a key in
-- it begins the data.
pub multiset_answers : List Call → Keys → List Bool
multiset_answers [] f = []
multiset_answers (add_key k ∷ cs) f = (f k == 0) ∷ multiset_answers cs (update k (suc (f k)) f)
multiset_answers (remove_key k ∷ cs) f = (f k == 1) ∷ multiset_answers cs (update k (f k - 1) f)
multiset_answers (check_data d ∷ cs) f = some_prefix f d ∷ multiset_answers cs f

-- All keys that are added are bytes.
abbrev pub bytes_added : List Call → Bool
bytes_added [] = true
bytes_added (add_key k ∷ cs) = all_bytes k && bytes_added cs
bytes_added (remove_key k ∷ cs) = bytes_added cs
bytes_added (check_data d ∷ cs) = bytes_added cs

same_key_lem : (k key : List ℕ) → same_key k key ≡ true → k ≡ key
same_key_lem [] [] h = refl
same_key_lem [] (c ∷ cs) h = cc
same_key_lem (b ∷ bs) [] h = cc
same_key_lem (b ∷ bs) (c ∷ cs) h =
    let first : b ≡ c = ground arith in
    let others : same_key bs cs ≡ true = ground arith in
    ap₂ (λ x xs. x ∷ xs) first (same_key_lem bs cs others)

same_key_refl : (k : List ℕ) → same_key k k ≡ true
same_key_refl [] = refl
same_key_refl (c ∷ cs) = ground (arith, same_key_refl cs)

-- The trie counts the keys of the multiset.
pub record Represents (t : Trie) (f : Keys) : Type 0 where
  pub in_order : IsTrie t
  pub counts : (k : List ℕ) → count_of k t ≡ f k

update-Represents :
    (key : List ℕ) (m n : ℕ) (t t' : Trie) (f : Keys)
    → Represents t f
    → Counts key m t t'
    → m ≡ n
    → Represents t' (update key n f)
update-Represents key m n t t' f r c e = record {
  in_order = c.in_order;
  counts = λ k. elim (Bool-cases (same_key k key)) [
    | inl same ↦ rw same (ap (λ x. count_of x t') (same_key_lem k key same) ∙ c.here ∙ e)
    | inr other ↦
        rw other
          (c.elsewhere k (λ q. cc (ap (same_key k) (sym q), other, same_key_refl k)) ∙ r.counts k)
  ];
}

answers-Represents :
    (calls : List Call) (t : Trie) (f : Keys)
    → Represents t f
    → bytes_added calls ≡ true
    → ((k : List ℕ) → f k + length calls < 2 ^ 32)
    → answers calls t ≡ some (multiset_answers calls f)
unfolding answers multiset_answers
answers-Represents [] t f r b less = refl
answers-Represents (add_key k ∷ cs) t f r b less =
    let (t', done, c) =
      add-Counts k t r.in_order (ground arith) (omega (arith, r.counts k, less k)) in
    let next : Represents t' (update k (suc (f k)) f) =
      update-Represents k (suc (count_of k t)) (suc (f k)) t t' f r c (ap suc (r.counts k)) in
    ap (λ o. o >>= λ r. answers cs r.1 >>= λ bs. some (r.0 ∷ bs)) done
    ∙ ap₂ (λ n o. o >>= λ bs. some ((n == 0) ∷ bs)) (r.counts k)
        (answers-Represents cs t' (update k (suc (f k)) f) next (ground arith)
          (λ key. ground (arith, less k, less key)))
answers-Represents (remove_key k ∷ cs) t f r b less =
    let (t', done, c) = rm-Counts k t r.in_order in
    let next : Represents t' (update k (f k - 1) f) =
      update-Represents k (count_of k t - 1) (f k - 1) t t' f r c (ap (λ n. n - 1) (r.counts k)) in
    ap (λ o. o >>= λ r. answers cs r.1 >>= λ bs. some (r.0 ∷ bs)) done
    ∙ ap₂ (λ n o. o >>= λ bs. some ((n == 1) ∷ bs)) (r.counts k)
        (answers-Represents cs t' (update k (f k - 1) f) next b
          (λ key. ground (arith, less k, less key)))
answers-Represents (check_data d ∷ cs) t f r b less =
    ap (λ o. o >>= λ b. answers cs t >>= λ bs. some (b ∷ bs))
      (check-some_prefix d t r.in_order
        ∙ ap some (some_prefix_same (λ k. count_of k t) f d r.counts))
    ∙ ap (λ o. o >>= λ bs. some (some_prefix f d ∷ bs))
        (answers-Represents cs t f r b (λ key. omega (arith, less key)))

-- A new trie answers every sequence of calls of add, rm and check as the multiset of its keys does,
-- and no assertion fails. The keys added are bytes, and the calls are fewer than 2 ^ 32.
pub answers-multiset_answers :
    (calls : List Call)
    → bytes_added calls ≡ true
    → length calls < 2 ^ 32
    → answers calls start ≡ some (multiset_answers calls (λ k. 0))
answers-multiset_answers calls bytes less =
    answers-Represents calls start (λ k. 0)
      (record { in_order = start-IsTrie; counts = count_of-start }) bytes (λ k. omega (arith, less))
