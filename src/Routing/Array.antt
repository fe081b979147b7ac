-- ===== src/Routing/Array.antt =====
-- src/array.hpp, `array_t`: an array of pointers whose items know their own position. A pointer is
-- a number here, and the field `_array_index` of all items together is the function `slot`.
-- Indices are in range where the callers below use them; outside, a read gives 0 and a write has no
-- effect on the items.
pub mod Laws
use zmq_cn_comment.Base.{
  ℕ, ◌+◌, ◌-◌, ◌<◌, ◌≡◌, List, [], ◌∷◌, ◌++◌, length, get_or, set, init_of, if◌then◌else◌, ◌==◌,
}

pub record Array : Type 0 where
  pub items : List ℕ
  pub slot : ℕ → ℕ

abbrev pub empty : Array
empty = record { items = []; slot = λ p. 0 }

-- set_array_index
abbrev pub update : (ℕ → ℕ) → ℕ → ℕ → ℕ → ℕ
update f k v j = if j == k then v else f j

abbrev pub size : Array → ℕ
size a = length a.items

abbrev pub at : Array → ℕ → ℕ
at a i = get_or a.items i 0

abbrev pub index : Array → ℕ → ℕ
index a p = a.slot p

pub push_back : ℕ → Array → Array
push_back p a = record { items = a.items ++ (p ∷ []); slot = update a.slot p (size a) }

unfoldable pub swap : ℕ → ℕ → Array → Array
swap i j a = record {
  items = set (set a.items i (at a j)) j (at a i);
  slot = update (update a.slot (at a i) j) (at a j) i;
}

-- The last item takes the place of the one that goes.
pub erase_at : ℕ → Array → Array
erase_at i a =
    let back = at a (size a - 1) in
    if size a == 0
    then a
    else record { items = init_of (set a.items i back); slot = update a.slot back i }

pub erase : ℕ → Array → Array
unfolding erase_at
erase p a = erase_at (index a p) a

-- Each item knows its position, so that no item stands twice.
pub record IsValid (a : Array) : Type 0 where
  pub knows : (i : ℕ) → i < size a → index a (at a i) ≡ i

-- The pointer is an item of the array.
abbrev pub Has : Array → ℕ → Type 0
Has a p = (index a p < size a) × (at a (index a p) ≡ p)
