-- ===== src/Trie/Add.antt =====
-- trie_t::add adds one to the count of its key, and to no other.
use zmq_cn_comment.Base.{
  ℕ, suc, ◌+◌, ◌<◌, ◌%◌, ◌^◌, ◌≡◌, ◌≢◌, refl, ap, ap₂, sym, subst, ◌∙◌, Bool, true, false, ◌&&◌,
  List, [], ◌∷◌, Option, none, some, ◌⊎◌, Bool-cases, inl, inr, if◌then◌else◌, ltb, ◌==◌, arith,
}
use zmq_cn_comment.Pipe.{◌>>=◌}
use zmq_cn_comment.Trie.{Trie, start, in_range, child, set_child, extend, or_new, add, is_redundant}
use zmq_cn_comment.Trie.Node.{
  IsNode, look, look_lem, IsTrie, tree, IsTrie-IsNode, count_of, count_below, count_of_cons,
  counted_needed,
}
use zmq_cn_comment.Trie.Extend.{Covers, extend-Covers}
use zmq_cn_comment.Trie.Put.{count_new_lem, put-IsTrie, look-put}

-- All characters are bytes.
abbrev pub all_bytes : List ℕ → Bool
all_bytes [] = true
all_bytes (c ∷ cs) = ltb c 256 && all_bytes cs

-- The node changed into one where a key counts n, and the others what they did.
pub record Counts (key : List ℕ) (n : ℕ) (t t' : Trie) : Type 0 where
  pub in_order : IsTrie t'
  pub here : count_of key t' ≡ n
  pub elsewhere : (k : List ℕ) → k ≢ key → count_of k t' ≡ count_of k t

look-start : (b : ℕ) → look b start ≡ none
look-start b = look_lem b start refl ∙ ground arith

pub start-IsTrie : IsTrie start
start-IsTrie =
    tree
      (record {
        size = refl;
        bytes = omega arith;
        refs = omega arith;
        lives = refl;
        first = λ h. absurd (omega arith);
        last = λ h. absurd (omega arith);
      })
      (λ b n at. cc (look-start b)) (λ b n at. cc (look-start b))

pub count_of-start : (key : List ℕ) → count_of key start ≡ 0
unfolding count_of
count_of-start [] = refl
count_of-start (c ∷ cs) = count_of_cons c cs start ∙ ap (count_below cs) (look-start c)

-- The node at a character, or a new one.
abbrev pub IsAt : ℕ → Trie → Trie → Type 0
IsAt c t n = (look c t ≡ some n) ⊎ ((look c t ≡ none) × (n ≡ start))

old_count :
    (c : ℕ) (t n : Trie) → IsAt c t n → (ks : List ℕ) → count_below ks (look c t) ≡ count_of ks n
old_count c t n (inl there) ks = ap (count_below ks) there
old_count c t n (inr (absent, new)) ks =
    ap (count_below ks) absent ∙ sym (ap (count_of ks) new ∙ count_of-start ks)

old-IsTrie : (c : ℕ) (t n : Trie) → IsTrie t → IsAt c t n → IsTrie n
old-IsTrie c t n (tree h below needed) (inl there) = below c n there
old-IsTrie c t n h (inr (absent, new)) = subst IsTrie (sym new) start-IsTrie

-- The child of the extended node is what stood at the character.
child-extend : (c : ℕ) (t e : Trie) → IsNode t → Covers c t e → child c e ≡ look c t
child-extend c t e h v =
    let inside : in_range c e ≡ true = ground (arith, v.low, v.high) in
    let looked : look c e ≡ child c e = rw inside refl in
    sym looked ∙ look_lem c e v.size ∙ v.holds c ∙ sym (look_lem c t h.size)

or_new-IsAt : (c : ℕ) (t : Trie) (o : Option Trie) → o ≡ look c t → IsAt c t (or_new o)
or_new-IsAt c t none same = inr (sym same, refl)
or_new-IsAt c t (some n) same = inl (sym same)

-- The counts follow the node that has been put.
pub put-Counts :
    (c : ℕ) (cs : List ℕ) (m : ℕ) (t t' n n' : Trie) (o : Option Trie)
    → ((b : ℕ) → look b t' ≡ (if b == c then o else look b t))
    → ((k : List ℕ) → count_below k o ≡ count_of k n')
    → t'.refcnt ≡ t.refcnt
    → IsAt c t n
    → IsTrie t'
    → Counts cs m n n'
    → Counts (c ∷ cs) m t t'
unfolding count_of
put-Counts c cs m t t' n n' o looks below refs old ok counts = record {
  in_order = ok;
  here = count_of_cons c cs t' ∙ ap (count_below cs) at_c ∙ below cs ∙ counts.here;
  elsewhere = λ k other. follows k other;
}
  where
    at_c : look c t' ≡ o
    at_c = looks c ∙ ground arith

    before : (ks : List ℕ) → count_below ks (look c t) ≡ count_of ks n
    before ks = old_count c t n old ks

    follows : (k : List ℕ) → k ≢ (c ∷ cs) → count_of k t' ≡ count_of k t
    follows [] other = refs
    follows (b ∷ ks) other = elim (Bool-cases (b == c)) [
      | inl here ↦
          let same : b ≡ c = ground arith in
          count_of_cons b ks t'
          ∙ ap (λ x. count_below ks (look x t')) same
          ∙ ap (count_below ks) at_c
          ∙ below ks
          ∙ counts.elsewhere ks (λ e. other (ap₂ (λ x xs. x ∷ xs) same e))
          ∙ sym (before ks)
          ∙ ap (λ x. count_below ks (look x t)) (sym same)
          ∙ sym (count_of_cons b ks t)
      | inr away ↦
          count_of_cons b ks t'
          ∙ ap (count_below ks) (looks b ∙ ground arith)
          ∙ sym (count_of_cons b ks t)
    ]

-- The count of a node changes no other key's.
pub root_only :
    (t : Trie) (r : ℕ) (k : List ℕ) → k ≢ [] → count_of k (record t { refcnt = r }) ≡ count_of k t
unfolding count_of
root_only t r [] other = absurd (other refl)
root_only t r (b ∷ ks) other = refl

pub add-Counts :
    (key : List ℕ) (t : Trie)
    → IsTrie t
    → all_bytes key ≡ true
    → suc (count_of key t) < 2 ^ 32
    → (t' : Trie) × (add key t ≡ some (count_of key t == 0, t'))
      × Counts key (suc (count_of key t)) t t'
unfolding add count_of
add-Counts [] t (tree h below needed) bytes less =
    let wrap : (t.refcnt + 1) % 2 ^ 32 ≡ suc t.refcnt = omega (arith, less) in
    (
      record t { refcnt = (t.refcnt + 1) % 2 ^ 32 },
      ap (λ (b : Bool). some (b, record t { refcnt = (t.refcnt + 1) % 2 ^ 32 }))
          (ground (arith, wrap)),
      record {
        in_order =
            tree
              (record {
                size = h.size;
                bytes = h.bytes;
                refs = omega (arith, wrap, less);
                lives = h.lives;
                first = h.first;
                last = h.last;
              })
              below needed;
        here = wrap;
        elsewhere = root_only t ((t.refcnt + 1) % 2 ^ 32);
      },
    )
add-Counts (c ∷ cs) t h bytes less =
    let e = extend c t in
    let v : Covers c t e = extend-Covers c t (IsTrie-IsNode t h) (ground arith) in
    let at : IsAt c t (or_new (child c e)) =
      or_new-IsAt c t (child c e) (child-extend c t e (IsTrie-IsNode t h) v) in
    let n = or_new (child c e) in
    let same : count_of (c ∷ cs) t ≡ count_of cs n = count_of_cons c cs t ∙ old_count c t n at cs in
    let (n', added, counts) =
      add-Counts cs n (old-IsTrie c t n h at) (ground arith) (omega (arith, same, less)) in
    let (live, counted, lives) = count_new_lem c t e v in
    let used : is_redundant n' ≡ false =
      counted_needed cs n' (IsTrie-IsNode n' counts.in_order) (omega (arith, counts.here)) in
    let refs : e.refcnt < 2 ^ 32 = omega (arith, v.same_refs, (IsTrie-IsNode t h).refs) in
    let t' = set_child c (some n') (record e { live_nodes = live }) in
    (
      t',
      ap (λ o. o >>= λ e'. add cs n >>= λ r. some (r.0, set_child c (some r.1) e')) counted
          ∙ ap (λ o. o >>= λ r. some (r.0, set_child c (some r.1) (record e { live_nodes = live })))
              added
          ∙ ap (λ k. some (k == 0, t')) (sym same),
      put-Counts c cs _ t t' n n' (some n')
          (λ b. look-put c t e v n' live b refs lives (IsTrie-IsNode t h).size) (λ k. refl)
          v.same_refs at (put-IsTrie c t e v n' live h counts.in_order used refs lives)
          (record {
            in_order = counts.in_order;
            here = counts.here ∙ ap suc (sym same);
            elsewhere = counts.elsewhere;
          }),
    )
