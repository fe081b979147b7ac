-- ===== src/Base/Lists.antt =====
-- Lists measured and indexed by native numbers, under the library's names.
use Prim.Native.Nat.{ℕ, zero, suc, ◌+◌, ◌-◌, ◌<◌, ◌≤◌, min}
use mathlib.Core.Path.{◌≡◌, refl, ap, sym, ◌∙◌}
use zmq_cn_comment.Base.Tests.{if◌then◌else◌, ◌==◌, ltb}
use mathlib.Core.List.{List, [], ◌∷◌, ◌++◌}
use mathlib.Core.Bool.{Bool, true, false, ◌&&◌}
use mathlib.Core.Option.{Option, none, some}
use native.Mathlib.Omega.{arith}

module _ {ℓ} {A : Type ℓ} where
  abbrev pub length : List A → ℕ
  length [] = 0
  length (x ∷ xs) = suc (length xs)

  abbrev pub get_elem? : List A → ℕ → Option A
  get_elem? [] i = none
  get_elem? (x ∷ xs) zero = some x
  get_elem? (x ∷ xs) (suc i) = get_elem? xs i

  abbrev pub get_or : List A → ℕ → A → A
  get_or [] i d = d
  get_or (x ∷ xs) zero d = x
  get_or (x ∷ xs) (suc i) d = get_or xs i d

  -- A write out of bounds changes nothing.
  abbrev pub set : List A → ℕ → A → List A
  set [] i v = []
  set (x ∷ xs) zero v = v ∷ xs
  set (x ∷ xs) (suc i) v = x ∷ set xs i v

  abbrev pub take : ℕ → List A → List A
  take zero xs = []
  take (suc n) [] = []
  take (suc n) (x ∷ xs) = x ∷ take n xs

  abbrev pub drop : ℕ → List A → List A
  drop zero xs = xs
  drop (suc n) [] = []
  drop (suc n) (x ∷ xs) = drop n xs

  abbrev pub replicate : ℕ → A → List A
  replicate zero a = []
  replicate (suc n) a = a ∷ replicate n a

  pub length-append : (xs ys : List A) → length (xs ++ ys) ≡ length xs + length ys
  length-append [] ys = omega arith
  length-append (x ∷ xs) ys = omega (arith, length-append xs ys)

  pub take-append-drop : (n : ℕ) (xs : List A) → take n xs ++ drop n xs ≡ xs
  take-append-drop zero xs = refl
  take-append-drop (suc n) [] = refl
  take-append-drop (suc n) (x ∷ xs) = rw (take-append-drop n xs)

  pub length-take : (n : ℕ) (xs : List A) → length (take n xs) ≡ min n (length xs)
  length-take zero xs = omega arith
  length-take (suc n) [] = omega arith
  length-take (suc n) (x ∷ xs) = omega (arith, length-take n xs)

  pub length-drop : (n : ℕ) (xs : List A) → length (drop n xs) ≡ length xs - n
  length-drop zero xs = omega arith
  length-drop (suc n) [] = omega arith
  length-drop (suc n) (x ∷ xs) = omega (arith, length-drop n xs)

  pub length-set : (xs : List A) (i : ℕ) (v : A) → length (set xs i v) ≡ length xs
  length-set [] i v = refl
  length-set (x ∷ xs) zero v = refl
  length-set (x ∷ xs) (suc i) v = ap suc (length-set xs i v)

  pub get_or-set :
      (xs : List A) (i j : ℕ) (v d : A)
      → i < length xs
      → get_or (set xs i v) j d ≡ (if j == i then v else get_or xs j d)
  get_or-set [] i j v d h = absurd (omega arith)
  get_or-set (x ∷ xs) zero zero v d h = refl
  get_or-set (x ∷ xs) zero (suc j) v d h = ground arith
  get_or-set (x ∷ xs) (suc i) zero v d h = ground arith
  get_or-set (x ∷ xs) (suc i) (suc j) v d h = get_or-set xs i j v d (omega arith) ∙ ground arith

  pub get_or-append :
      (xs ys : List A) (i : ℕ) (d : A)
      → get_or (xs ++ ys) i d
        ≡ (if ltb i (length xs) then get_or xs i d else get_or ys (i - length xs) d)
  get_or-append [] ys i d =
      let none_below : ltb i 0 ≡ false = ground arith in
      let whole : i - 0 ≡ i = omega arith in rw (none_below, whole)
  get_or-append (x ∷ xs) ys zero d = ground arith
  get_or-append (x ∷ xs) ys (suc i) d =
      let less : suc i - suc (length xs) ≡ i - length xs = omega arith in
      let below : ltb (suc i) (suc (length xs)) ≡ ltb i (length xs) = ground arith in
      rw (less, below) (get_or-append xs ys i d)

  -- Without the last item.
  abbrev pub init_of : List A → List A
  init_of [] = []
  init_of (x ∷ []) = []
  init_of (x ∷ y ∷ xs) = x ∷ init_of (y ∷ xs)

  abbrev pub last_of : List A → Option A
  last_of [] = none
  last_of (x ∷ []) = some x
  last_of (x ∷ y ∷ xs) = last_of (y ∷ xs)

  pub length-init_of : (xs : List A) → length (init_of xs) ≡ length xs - 1
  length-init_of [] = refl
  length-init_of (x ∷ []) = refl
  length-init_of (x ∷ y ∷ xs) = omega (arith, length-init_of (y ∷ xs))

  pub get_or-init_of :
      (xs : List A) (i : ℕ) (d : A) → suc i < length xs → get_or (init_of xs) i d ≡ get_or xs i d
  get_or-init_of [] i d h = absurd (omega arith)
  get_or-init_of (x ∷ []) i d h = absurd (omega arith)
  get_or-init_of (x ∷ y ∷ xs) zero d h = refl
  get_or-init_of (x ∷ y ∷ xs) (suc i) d h = get_or-init_of (y ∷ xs) i d (omega arith)

  pub length-replicate : (n : ℕ) (a : A) → length (replicate n a) ≡ n
  length-replicate zero a = refl
  length-replicate (suc n) a = ap suc (length-replicate n a)

  pub get_or-replicate : (n i : ℕ) (d : A) → get_or (replicate n d) i d ≡ d
  get_or-replicate zero i d = refl
  get_or-replicate (suc n) zero d = refl
  get_or-replicate (suc n) (suc i) d = get_or-replicate n i d

  pub get_or_outside : (l : List A) (i : ℕ) (d : A) → length l ≤ i → get_or l i d ≡ d
  get_or_outside [] i d h = refl
  get_or_outside (x ∷ l) zero d h = absurd (omega arith)
  get_or_outside (x ∷ l) (suc i) d h = get_or_outside l i d (omega arith)

  pub get_or-drop :
      (n : ℕ) (l : List A) (i : ℕ) (d : A) → get_or (drop n l) i d ≡ get_or l (n + i) d
  get_or-drop zero l i d = let at : i ≡ 0 + i = omega arith in ap (λ k. get_or l k d) at
  get_or-drop (suc n) [] i d = refl
  get_or-drop (suc n) (x ∷ l) i d =
      let at : suc (n + i) ≡ suc n + i = omega arith in
      get_or-drop n l i d ∙ ap (λ k. get_or (x ∷ l) k d) at

  pub get_or-take :
      (n : ℕ) (l : List A) (i : ℕ) (d : A) → i < n → get_or (take n l) i d ≡ get_or l i d
  get_or-take zero l i d h = absurd (omega arith)
  get_or-take (suc n) [] i d h = refl
  get_or-take (suc n) (x ∷ l) zero d h = refl
  get_or-take (suc n) (x ∷ l) (suc i) d h = get_or-take n l i d (omega arith)

  pub take-length : (xs ys : List A) → take (length xs) (xs ++ ys) ≡ xs
  take-length [] ys = refl
  take-length (x ∷ xs) ys = ap (λ l. x ∷ l) (take-length xs ys)

  pub drop-length : (xs ys : List A) → drop (length xs) (xs ++ ys) ≡ ys
  drop-length [] ys = refl
  drop-length (x ∷ xs) ys = drop-length xs ys

  take_nil : (n : ℕ) → take n [] ≡ []
  take_nil zero = refl
  take_nil (suc n) = refl

  pub drop-take : (n k : ℕ) (xs : List A) → drop n (take k xs) ≡ take (k - n) (drop n xs)
  drop-take zero k xs = let same : k ≡ k - 0 = omega arith in ap (λ j. take j xs) same
  drop-take (suc n) zero xs =
      let none_left : 0 ≡ zero - suc n = omega arith in ap (λ j. take j (drop (suc n) xs)) none_left
  drop-take (suc n) (suc k) [] = sym (take_nil (suc k - suc n))
  drop-take (suc n) (suc k) (x ∷ xs) =
      let same : k - n ≡ suc k - suc n = omega arith in
      drop-take n k xs ∙ ap (λ j. take j (drop n xs)) same

pub data IsBytes : List ℕ → Type 0 where
  no_byte : IsBytes []
  byte : {b : ℕ} {bs : List ℕ} → b < 256 → IsBytes bs → IsBytes (b ∷ bs)

abbrev pub equal_bytes : List ℕ → List ℕ → Bool
equal_bytes [] [] = true
equal_bytes [] (y ∷ ys) = false
equal_bytes (x ∷ xs) [] = false
equal_bytes (x ∷ xs) (y ∷ ys) = (x == y) && equal_bytes xs ys
