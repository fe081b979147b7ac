-- ===== src/Wire.antt =====
-- src/wire.hpp: 32-bit and 64-bit integers in network byte order.
use zmq_cn_comment.Base.{
  ℕ, ◌+◌, ◌*◌, ◌/◌, ◌%◌, ◌^◌, ◌<◌, ◌≡◌, refl, List, [], ◌∷◌, ◌++◌, length, get_or, drop, ap, arith,
}

unfoldable pub put_uint32 : ℕ → List ℕ
put_uint32 v = v / 2 ^ 24 % 256 ∷ v / 2 ^ 16 % 256 ∷ v / 2 ^ 8 % 256 ∷ v % 256 ∷ []

unfoldable pub get_uint32 : List ℕ → ℕ
get_uint32 b = get_or b 0 0 * 2 ^ 24 + get_or b 1 0 * 2 ^ 16 + get_or b 2 0 * 2 ^ 8 + get_or b 3 0

-- The number stands at the beginning of the bytes.
pub get_uint32-put_uint32 :
    (v : ℕ) (rest : List ℕ) → v < 2 ^ 32 → get_uint32 (put_uint32 v ++ rest) ≡ v
unfolding get_uint32 put_uint32
get_uint32-put_uint32 v rest h = omega arith

pub length-put_uint32 : (v : ℕ) → length (put_uint32 v) ≡ 4
unfolding put_uint32
length-put_uint32 v = refl

pub put_uint64 : ℕ → List ℕ
put_uint64 v =
    v / 2 ^ 56 % 256
    ∷ v / 2 ^ 48 % 256
    ∷ v / 2 ^ 40 % 256
    ∷ v / 2 ^ 32 % 256
    ∷ v / 2 ^ 24 % 256
    ∷ v / 2 ^ 16 % 256
    ∷ v / 2 ^ 8 % 256
    ∷ v % 256
    ∷ []

-- The bytes stand in separate bits, so that `|` is a sum.
pub get_uint64 : List ℕ → ℕ
get_uint64 b =
    get_or b 0 0 * 2 ^ 56
    + get_or b 1 0 * 2 ^ 48
    + get_or b 2 0 * 2 ^ 40
    + get_or b 3 0 * 2 ^ 32
    + get_or b 4 0 * 2 ^ 24
    + get_or b 5 0 * 2 ^ 16
    + get_or b 6 0 * 2 ^ 8
    + get_or b 7 0

-- Reading back what was written gives the value, if it fits 64 bits.
pub get_uint64-put_uint64 : (v : ℕ) → v < 2 ^ 64 → get_uint64 (put_uint64 v) ≡ v
unfolding get_uint64 put_uint64
get_uint64-put_uint64 v h = omega arith

pub length-put_uint64 : (v : ℕ) → length (put_uint64 v) ≡ 8
unfolding put_uint64
length-put_uint64 v = refl

pub put_uint64_256 : put_uint64 256 ≡ 0 ∷ 0 ∷ 0 ∷ 0 ∷ 0 ∷ 0 ∷ 1 ∷ 0 ∷ []
unfolding put_uint64
put_uint64_256 = refl

pub put_uint64_small : (v : ℕ) → v < 2 ^ 56 → put_uint64 v ≡ 0 ∷ drop 1 (put_uint64 v)
unfolding put_uint64
put_uint64_small v h = ap (λ b. b ∷ drop 1 (put_uint64 v)) (omega arith)
