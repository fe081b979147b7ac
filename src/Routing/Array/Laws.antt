-- ===== src/Routing/Array/Laws.antt =====
-- What the operations of the array do to its items and to the positions that they know.
use zmq_cn_comment.Base.{
  ◌∙◌, ltb, ℕ, ◌+◌, ◌-◌, ◌<◌, ◌≡◌, ◌≢◌, ◌≤◌, ◌⊎◌, refl, [], ◌∷◌, set, if◌then◌else◌, ◌==◌,
  length-set, length-append, get_or-set, get_or-append, length-init_of, get_or-init_of, arith,
}
use zmq_cn_comment.Routing.Array.{
  Array, size, at, index, push_back, swap, erase_at, erase, IsValid, Has,
}

module _ (a : Array) where
  pub size-swap : (i j : ℕ) → size (swap i j a) ≡ size a
  unfolding swap
  size-swap i j =
      omega (arith, length-set (set a.items i (at a j)) j (at a i), length-set a.items i (at a j))

  -- What stands at a position after a swap.
  pub at-swap :
      (i j k : ℕ)
      → i < size a
      → j < size a
      → at (swap i j a) k ≡ (if k == j then at a i else if k == i then at a j else at a k)
  unfolding swap
  at-swap i j k hi hj = ground (
    arith,
    get_or-set (set a.items i (at a j)) j k (at a i) 0,
    get_or-set a.items i k (at a j) 0,
    length-set a.items i (at a j),
  )

  pub slot-swap :
      (i j p : ℕ)
      → (swap i j a).slot p ≡ (if p == at a j then i else if p == at a i then j else a.slot p)
  unfolding swap
  slot-swap i j p = refl

  -- A swap keeps every position known.
  pub swap-IsValid : (i j : ℕ) → i < size a → j < size a → IsValid a → IsValid (swap i j a)
  swap-IsValid i j hi hj v = record {
    knows = λ k hk. ground (
      arith,
      at-swap i j k hi hj,
      slot-swap i j (at (swap i j a) k),
      size-swap i j,
      v.knows i hi,
      v.knows j hj,
      v.knows k,
    );
  }

  pub swap-Has : (i j p : ℕ) → i < size a → j < size a → IsValid a → Has a p → Has (swap i j a) p
  swap-Has i j p hi hj v h = ground (
    arith,
    at-swap i j (index (swap i j a) p) hi hj,
    slot-swap i j p,
    size-swap i j,
    v.knows i hi,
    v.knows j hj,
  )

  pub size-push_back : (p : ℕ) → size (push_back p a) ≡ size a + 1
  unfolding push_back
  size-push_back p = omega (arith, length-append a.items (p ∷ []))

  pub at-push_back :
      (p k : ℕ) → k < size a + 1 → at (push_back p a) k ≡ (if k == size a then p else at a k)
  unfolding push_back
  at-push_back p k h = ground (arith, get_or-append a.items (p ∷ []) k 0)

  pub slot-push_back : (p q : ℕ) → (push_back p a).slot q ≡ (if q == p then size a else a.slot q)
  unfolding push_back
  slot-push_back p q = refl

  -- The pointer is not an item of the array.
  abbrev pub Fresh : ℕ → Type 0
  Fresh p = (k : ℕ) → k < size a → at a k ≢ p

  pub push_back-IsValid : (p : ℕ) → Fresh p → IsValid a → IsValid (push_back p a)
  push_back-IsValid p fresh v = record {
    knows = λ k hk. ground (
      arith,
      size-push_back p,
      at-push_back p k,
      slot-push_back p (at (push_back p a) k),
      v.knows k,
      fresh k,
    );
  }

  pub push_back-Has : (p q : ℕ) → Fresh p → Has a q → Has (push_back p a) q
  push_back-Has p q fresh h =
      ground
        (arith, size-push_back p, at-push_back p (index a q), slot-push_back p q, fresh (index a q))

  pub size-erase_at : (i : ℕ) → size (erase_at i a) ≡ size a - 1
  unfolding erase_at
  size-erase_at i = ground (
    arith,
    length-init_of (set a.items i (at a (size a - 1))),
    length-set a.items i (at a (size a - 1)),
  )

  pub at-erase_at :
      (i k : ℕ)
      → i < size a
      → k + 1 < size a
      → at (erase_at i a) k ≡ (if k == i then at a (size a - 1) else at a k)
  unfolding erase_at
  at-erase_at i k hi hk = ground (
    arith,
    get_or-init_of (set a.items i (at a (size a - 1))) k 0,
    get_or-set a.items i k (at a (size a - 1)) 0,
    length-set a.items i (at a (size a - 1)),
  )

  pub slot-erase_at :
      (i p : ℕ)
      → i < size a
      → (erase_at i a).slot p ≡ (if p == at a (size a - 1) then i else a.slot p)
  unfolding erase_at
  slot-erase_at i p hi = ground arith

  -- Removing the item at a position keeps the other positions known.
  pub erase_at-IsValid : (i : ℕ) → i < size a → IsValid a → IsValid (erase_at i a)
  erase_at-IsValid i hi v = record {
    knows = λ k hk. ground (
      arith,
      size-erase_at i,
      at-erase_at i k hi,
      slot-erase_at i (at (erase_at i a) k) hi,
      v.knows (size a - 1),
      v.knows k,
    );
  }

  pub erase_at-Has :
      (i p : ℕ) → i < size a → IsValid a → Has a p → p ≢ at a i → Has (erase_at i a) p
  erase_at-Has i p hi v h ne = ground (
    arith,
    size-erase_at i,
    at-erase_at i (index (erase_at i a) p) hi,
    slot-erase_at i p hi,
    v.knows (size a - 1),
  )

-- Removing an item: the others stay, and the last one takes its place.
module _ (a : Array) (p : ℕ) (v : IsValid a) (h : Has a p) where
  pub size-erase : size (erase p a) + 1 ≡ size a
  unfolding erase
  size-erase = omega (arith, size-erase_at a (index a p))

  pub erase-IsValid : IsValid (erase p a)
  unfolding erase
  erase-IsValid = erase_at-IsValid a (index a p) h.0 v

  pub erase-Has : (q : ℕ) → Has a q → q ≢ p → Has (erase p a) q
  unfolding erase
  erase-Has q hq ne = erase_at-Has a (index a p) q h.0 v hq (λ e. ne (e ∙ h.1))

  pub at-erase :
      (k : ℕ)
      → k + 1 < size a
      → at (erase p a) k ≡ (if k == index a p then at a (size a - 1) else at a k)
  unfolding erase
  at-erase k hk = at-erase_at a (index a p) k h.0 hk

  pub index-erase_other :
      (q n : ℕ)
      → Has a q
      → n ≤ index a p
      → n ≤ size a
      → ltb (index (erase p a) q) n ≡ ltb (index a q) n
  unfolding erase
  index-erase_other q n hq low fits =
      ground (arith, slot-erase_at a (index a p) q, v.knows (size a - 1))

-- An item moved down to the position before a boundary that it stood below.
module _ (a : Array) (p n : ℕ) (v : IsValid a) (h : Has a p) (below : index a p < n)
    (fits : n ≤ size a) where
  abbrev moved : Array
  moved = swap (index a p) (n - 1) a

  pub moved-IsValid : IsValid moved
  moved-IsValid = swap-IsValid a (index a p) (n - 1) (omega arith) (omega arith) v

  pub size-moved : size moved ≡ size a
  size-moved = size-swap a (index a p) (n - 1)

  pub index-moved : index moved p ≡ n - 1
  index-moved = ground (arith, slot-swap a (index a p) (n - 1) p, v.knows (n - 1))

  pub moved-Has : (q : ℕ) → Has a q → Has moved q
  moved-Has q = swap-Has a (index a p) (n - 1) q (omega arith) (omega arith) v

  -- The other items stay on their side of every boundary that is not between the two positions,
  -- and p is taken out from below n.
  pub moved_others :
      (q m : ℕ)
      → Has a q
      → q ≢ p
      → (n ≤ m) ⊎ (m ≤ index a p)
      → ltb (index moved q) m ≡ ltb (index a q) m
  moved_others q m hq ne side =
      ground (arith, slot-swap a (index a p) (n - 1) q, v.knows (n - 1), side)

  pub moved_below : (q : ℕ) → Has a q → q ≢ p → ltb (index moved q) (n - 1) ≡ ltb (index a q) n
  moved_below q hq ne = ground (arith, slot-swap a (index a p) (n - 1) q, v.knows (n - 1))
