-- ===== src/Codec/Ws/Xor.antt =====
-- The exclusive or of bytes.
use Prim.Native.Nat.{bit_xor}
use zmq_cn_comment.Base.{ℕ, ◌<◌, ◌≡◌, refl, Bool, true, ◌==◌, ==_iff, all_below, all_below_lem}

abbrev undoes : ℕ → ℕ → Bool
undoes x k = bit_xor (bit_xor x k) k == x

abbrev undone : ℕ → Bool
undone x = all_below (undoes x) 256

table : all_below undone 256 ≡ true
table = refl

pub xor_twice : (x k : ℕ) → x < 256 → k < 256 → bit_xor (bit_xor x k) k ≡ x
xor_twice x k h h' = (==_iff _ x).0 (all_below_lem (undoes x) 256 k row h')
  where
    row : undone x ≡ true
    row = all_below_lem undone 256 x table h
