-- ===== src/Trie/Table.antt =====
-- Lists of slots, some of which are null: what is in them, and how many are not null.
use zmq_cn_comment.Base.{
  ℕ, zero, suc, ◌+◌, ◌<◌, ◌≤◌, ◌≡◌, refl, ap, Bool, true, false, List, [], ◌∷◌, ◌++◌, Option, none,
  some, length, get_or, set, replicate, take, drop, arith,
}

module _ {ℓ} {A : Type ℓ} where
  abbrev pub is_some : Option A → Bool
  is_some none = false
  is_some (some a) = true

  -- One for a slot that is not null.
  abbrev pub one_if : Option A → ℕ
  one_if none = 0
  one_if (some a) = 1

  abbrev pub live : List (Option A) → ℕ
  live [] = 0
  live (o ∷ l) = one_if o + live l

  pub live-append : (l m : List (Option A)) → live (l ++ m) ≡ live l + live m
  live-append [] m = omega arith
  live-append (o ∷ l) m = omega (arith, live-append l m)

  pub live-set :
      (l : List (Option A)) (i : ℕ) (o : Option A)
      → i < length l
      → live (set l i o) + one_if (get_or l i none) ≡ live l + one_if o
  live-set [] i o h = absurd (omega arith)
  live-set (x ∷ l) zero o h = omega arith
  live-set (x ∷ l) (suc i) o h = omega (arith, live-set l i o)

  pub live-length : (l : List (Option A)) → live l ≤ length l
  live-length [] = omega arith
  live-length (none ∷ l) = omega (arith, live-length l)
  live-length (some t ∷ l) = omega (arith, live-length l)

  pub live_slot : (l : List (Option A)) (i : ℕ) → one_if (get_or l i none) ≤ live l
  live_slot [] i = omega arith
  live_slot (x ∷ l) zero = omega arith
  live_slot (x ∷ l) (suc i) = omega (arith, live_slot l i)

  pub live_two :
      (l : List (Option A)) (i j : ℕ)
      → i < j
      → one_if (get_or l i none) + one_if (get_or l j none) ≤ live l
  live_two [] i j h = omega arith
  live_two (x ∷ l) i zero h = absurd (omega arith)
  live_two (x ∷ l) zero (suc j) h = omega (arith, live_slot l j)
  live_two (x ∷ l) (suc i) (suc j) h = omega (arith, live_two l i j)

  pub live-drop :
      (n : ℕ) (l : List (Option A))
      → ((k : ℕ) → k < n → get_or l k none ≡ none)
      → live (drop n l) ≡ live l
  live-drop zero l h = refl
  live-drop (suc n) [] h = refl
  live-drop (suc n) (x ∷ l) h =
      omega (arith, live-drop n l (λ k lt. h (suc k) (omega arith)), ap one_if (h 0 (omega arith)))

  live_zero : (l : List (Option A)) → ((k : ℕ) → get_or l k none ≡ none) → live l ≡ 0
  live_zero [] h = refl
  live_zero (x ∷ l) h = omega (arith, live_zero l (λ k. h (suc k)), ap one_if (h 0))

  pub live-take :
      (n : ℕ) (l : List (Option A))
      → ((k : ℕ) → n ≤ k → get_or l k none ≡ none)
      → live (take n l) ≡ live l
  live-take zero l h = omega (arith, live_zero l (λ k. h k (omega arith)))
  live-take (suc n) [] h = refl
  live-take (suc n) (x ∷ l) h = omega (arith, live-take n l (λ k le. h (suc k) (omega arith)))

pub live-replicate {ℓ} : (A : Type ℓ) (n : ℕ) → live {A = A} (replicate n none) ≡ 0
live-replicate A zero = refl
live-replicate A (suc n) = omega (arith, live-replicate A n)
