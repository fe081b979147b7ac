-- ===== src/Trie/Extend.antt =====
-- The table of a node once it covers a character: it holds what it held.
use zmq_cn_comment.Base.{
  length-replicate, get_or-replicate, get_or_outside, ℕ, suc, ◌+◌, ◌-◌, ◌<◌, ◌≤◌, ◌≡◌, refl, ap,
  sym, subst, ◌∙◌, min, true, false, List, [], ◌∷◌, ◌++◌, Option, none, ◌⊎◌, Bool-cases, inl, inr,
  if◌then◌else◌, length, get_or, set, replicate, length-set, get_or-set, length-append,
  get_or-append, ltb, leb, ◌==◌, arith,
}
use zmq_cn_comment.Trie.{Trie, table, slots, in_range, extend}
use zmq_cn_comment.Trie.Table.{one_if, live, live-set, live-replicate, live-append}
use zmq_cn_comment.Trie.Node.{table-slots, IsNode, at_byte}

-- A table e that covers a character c and holds what the node t held. Its first and its last slot may
-- be null only where they are the slot of c.
pub record Covers (c : ℕ) (t e : Trie) : Type 0 where
  pub same_refs : e.refcnt ≡ t.refcnt
  pub same_lives : e.live_nodes ≡ t.live_nodes
  pub size : length (table e.next) ≡ e.count
  pub bytes : e.min + e.count ≤ 256
  pub low : e.min ≤ c
  pub high : c < e.min + e.count
  pub lives : live (table e.next) ≡ e.live_nodes
  pub holds : (b : ℕ) → at_byte b e ≡ at_byte b t
  pub first : (c ≡ e.min) ⊎ (one_if (get_or (table e.next) 0 none) ≡ 1)
  pub last : (suc c ≡ e.min + e.count) ⊎ (one_if (get_or (table e.next) (e.count - 1) none) ≡ 1)

-- The same with the table as a list.
abbrev pub made : Trie → ℕ → List (Option Trie) → Trie
made t low l = record t { min = low; count = length l; next = slots l }

length_zero : (l : List (Option Trie)) → length l ≡ 0 → l ≡ []
length_zero [] h = refl
length_zero (o ∷ l) h = absurd (omega arith)

pub live_one : (l : List (Option Trie)) → length l ≡ 1 → live l ≡ one_if (get_or l 0 none)
live_one [] h = absurd (omega arith)
live_one (o ∷ []) h = omega arith
live_one (o ∷ x ∷ l) h = absurd (omega arith)

module _ (c : ℕ) (t : Trie) (h : IsNode t) (byte : c < 256) where
  made-Covers :
      (low : ℕ) (l : List (Option Trie))
      → low + length l ≤ 256
      → low ≤ c
      → c < low + length l
      → live l ≡ t.live_nodes
      → ((b : ℕ) → (if leb low b then get_or l (b - low) none else none) ≡ at_byte b t)
      → (c ≡ low) ⊎ (one_if (get_or l 0 none) ≡ 1)
      → (suc c ≡ low + length l) ⊎ (one_if (get_or l (length l - 1) none) ≡ 1)
      → Covers c t (made t low l)
  made-Covers low l fits at below lives holds first last = record {
    same_refs = refl;
    same_lives = refl;
    size = ap length (table-slots l);
    bytes = fits;
    low = at;
    high = below;
    lives = ap live (table-slots l) ∙ lives;
    holds = λ b.
        ap (λ m. if leb low b then get_or m (b - low) none else none) (table-slots l) ∙ holds b;
    first = subst (λ m. (c ≡ low) ⊎ (one_if (get_or m 0 none) ≡ 1)) (sym (table-slots l)) first;
    last =
        subst (λ m. (suc c ≡ low + length l) ⊎ (one_if (get_or m (length l - 1) none) ≡ 1))
          (sym (table-slots l)) last;
  }

  pub same-Covers : in_range c t ≡ true → Covers c t t
  same-Covers r = record {
    same_refs = refl;
    same_lives = refl;
    size = h.size;
    bytes = h.bytes;
    low = ground arith;
    high = ground arith;
    lives = h.lives;
    holds = λ b. refl;
    first = inr (h.first (ground arith));
    last = inr (h.last (ground arith));
  }

  first-Covers : t.count ≡ 0 → Covers c t (made t c (none ∷ []))
  first-Covers e =
      let no_slot : (i : ℕ) → get_or (table t.next) i none ≡ none =
        λ i. get_or_outside (table t.next) i none (omega (arith, h.size)) in
      made-Covers c (none ∷ []) (omega arith) (omega arith) (omega arith)
        (sym (ap live (length_zero (table t.next) (h.size ∙ e))) ∙ h.lives)
        (λ b.
          ground (arith, get_or-replicate {A = Option Trie} 1 (b - c) none, no_slot (b - t.min)))
        (inl refl) (inl (omega arith))

  above-Covers :
      0 < t.count
      → t.min + t.count ≤ c
      → let n = c - t.min + 1 - t.count in
        Covers c t (made t t.min (table t.next ++ replicate n none))
  above-Covers some_there out =
      let n = c - t.min + 1 - t.count in
      let total : length (table t.next ++ replicate n none) ≡ c - t.min + 1 = omega (
        arith,
        length-append (table t.next) (replicate n none),
        length-replicate {A = Option Trie} n none,
        h.size,
      ) in
      let held : (i : ℕ)
          → get_or (table t.next ++ replicate n none) i none ≡ get_or (table t.next) i none =
        λ i.
          get_or-append (table t.next) (replicate n none) i none
          ∙ ground (
            arith,
            get_or-replicate {A = Option Trie} n (i - length (table t.next)) none,
            get_or_outside (table t.next) i none,
          ) in
      made-Covers t.min (table t.next ++ replicate n none) (omega (arith, total)) (omega arith)
        (omega (arith, total))
        (omega
          (arith, live-append (table t.next) (replicate n none), live-replicate Trie n, h.lives))
        (λ b. ap (λ o. if leb t.min b then o else none) (held (b - t.min)))
        (inr (ap one_if (held 0) ∙ h.first some_there)) (inl (omega (arith, total)))

  below-Covers :
      0 < t.count → c < t.min → Covers c t (made t c (replicate (t.min - c) none ++ table t.next))
  below-Covers some_there out =
      let n = t.min - c in
      let total : length (replicate n none ++ table t.next) ≡ n + t.count = omega (
        arith,
        length-append (replicate n none) (table t.next),
        length-replicate {A = Option Trie} n none,
        h.size,
      ) in
      let held : (i : ℕ)
          → get_or (replicate n none ++ table t.next) i none
            ≡ (if ltb i n then none else get_or (table t.next) (i - n) none) =
        λ i.
          get_or-append (replicate n none) (table t.next) i none
          ∙ ground (
            arith,
            get_or-replicate {A = Option Trie} n i none,
            length-replicate {A = Option Trie} n none,
          ) in
      let at_end : n + t.count - 1 - n ≡ t.count - 1 = omega arith in
      let last_at : one_if (get_or (table t.next) (n + t.count - 1 - n) none) ≡ 1 =
        ap (λ i. one_if (get_or (table t.next) i none)) at_end ∙ h.last some_there in
      made-Covers c (replicate n none ++ table t.next) (omega (arith, total, h.bytes)) (omega arith)
        (omega (arith, total))
        (omega
          (arith, live-append (replicate n none) (table t.next), live-replicate Trie n, h.lives))
        (λ b. elim (Bool-cases (leb t.min b)) [
          | inl there ↦
              let at : b - c - n ≡ b - t.min = ground arith in
              let moved : get_or (table t.next) (b - c - n) none
                  ≡ get_or (table t.next) (b - t.min) none =
                ap (λ i. get_or (table t.next) i none) at in
              ground (arith, held (b - c), moved)
          | inr before ↦ ground (arith, held (b - c))
        ])
        (inl refl)
        (inr (
          ap (λ i. one_if (get_or (replicate n none ++ table t.next) i none))
            (ap (λ k. k - 1) total)
          ∙ ap one_if (held (n + t.count - 1))
          ∙ ground (arith, last_at)))

  single-Covers :
      (low above : ℕ)
      → t.count ≡ 1
      → ((low ≡ t.min) × (low + above ≡ c)) ⊎ ((low ≡ c) × (low + above ≡ t.min))
      → Covers c t (
          made t low
            (set (replicate (above + 1) none) (t.min - low) (get_or (table t.next) 0 none)))
  single-Covers low above one side =
      let old = get_or (table t.next) 0 none in
      let l = set (replicate (above + 1) none) (t.min - low) old in
      let wide : length (replicate {A = Option Trie} (above + 1) none) ≡ above + 1 =
        length-replicate (above + 1) none in
      let total : length l ≡ above + 1 =
        length-set (replicate (above + 1) none) (t.min - low) old ∙ wide in
      let inside : t.min - low < length (replicate {A = Option Trie} (above + 1) none) =
        ground (arith, wide) in
      let held : (i : ℕ) → get_or l i none ≡ (if i == t.min - low then old else none) = λ i.
        get_or-set (replicate (above + 1) none) (t.min - low) i old none inside
        ∙ ap (λ o. if i == t.min - low then old else o) (get_or-replicate (above + 1) i none) in
      let fits : low + (above + 1) ≤ 256 = ground (arith, h.bytes) in
      made-Covers low l (ground (arith, total, fits)) (ground arith) (ground (arith, total))
        (omega (
          arith,
          live-set (replicate (above + 1) none) (t.min - low) old inside,
          ap one_if (get_or-replicate {A = Option Trie} (above + 1) (t.min - low) none),
          live-replicate Trie (above + 1),
          live_one (table t.next) (h.size ∙ one),
          h.lives,
        ))
        (λ b. elim (Bool-cases (b == t.min)) [
          | inl here ↦
              let zeroth : get_or (table t.next) (b - t.min) none ≡ old =
                ap (λ i. get_or (table t.next) i none) (ground arith) in
              ground (arith, held (b - low), zeroth)
          | inr away ↦
              ground (arith, held (b - low), get_or_outside (table t.next) (b - t.min) none, h.size)
        ])
        (elim side [
          | inl (at, up) ↦ inr (ap one_if (held 0 ∙ ground arith) ∙ h.first (omega arith))
          | inr (at, up) ↦ inl (sym at)
        ])
        (elim side [
          | inl (at, up) ↦ inl (omega (arith, total))
          | inr (at, up) ↦
              inr (ap one_if (held (length l - 1) ∙ ground (arith, total)) ∙ h.first (omega arith))
        ])

  counted :
      {low : ℕ} (l : List (Option Trie)) (n : ℕ)
      → length l ≡ n
      → Covers c t (made t low l)
      → Covers c t (record t { min = low; count = n; next = slots l })
  counted {low} l n e covers =
      subst (λ k. Covers c t (record t { min = low; count = k; next = slots l })) e covers

  above_lem : in_range c t ≡ false → ltb t.min c ≡ true → t.min + t.count ≤ c
  above_lem out up = ground arith

  below_lem : in_range c t ≡ false → ltb t.min c ≡ false → (t.count == 0) ≡ false → c < t.min
  below_lem out down slot = ground arith

  -- extend covers the character, on every one of its branches.
  pub extend-Covers : Covers c t (extend c t)
  unfolding extend
  extend-Covers = elim (Bool-cases (in_range c t)) [
    | inl inside ↦ rw inside (same-Covers inside)
    | inr outside ↦ elim (Bool-cases (t.count == 0)) [
      | inl no_slot ↦
          rw (outside, no_slot) (counted (none ∷ []) 1 refl (first-Covers (ground arith)))
      | inr slot ↦ elim (Bool-cases (t.count == 1)) [
        | inl one ↦
            let above = if ltb t.min c then c - t.min else t.min - c in
            rw (outside, slot, one)
              (counted _ (above + 1)
                (length-set (replicate (above + 1) none) (t.min - min t.min c)
                    (get_or (table t.next) 0 none)
                  ∙ length-replicate (above + 1) none)
                (single-Covers (min t.min c) above (ground arith) (ground arith)))
        | inr more ↦ elim (Bool-cases (ltb t.min c)) [
          | inl up ↦
              let n = c - t.min + 1 - t.count in
              rw (outside, slot, more, up)
                (counted _ (c - t.min + 1)
                  (omega (
                    arith,
                    length-append (table t.next) (replicate n none),
                    length-replicate {A = Option Trie} n none,
                    h.size,
                    above_lem outside up,
                  ))
                  (above-Covers (ground arith) (above_lem outside up)))
          | inr down ↦
              rw (outside, slot, more, down)
                (counted _ (t.min + t.count - c)
                  (omega (
                    arith,
                    length-append (replicate (t.min - c) none) (table t.next),
                    length-replicate {A = Option Trie} (t.min - c) none,
                    h.size,
                    below_lem outside down slot,
                  ))
                  (below-Covers (ground arith) (below_lem outside down slot)))
        ]
      ]
    ]
  ]
