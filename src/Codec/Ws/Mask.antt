-- ===== src/Codec/Ws/Mask.antt =====
-- Masking bytes twice gives them back, while the index fits an int.
use Prim.Native.Nat.{bit_xor}
use zmq_cn_comment.Base.{
  ℕ, zero, suc, ◌+◌, ◌%◌, ◌^◌, ◌<◌, ◌≡◌, refl, ap, ap₂, ◌∙◌, true, ltb, if◌then◌else◌, List, [],
  ◌∷◌, length, get_or, arith, IsBytes, no_byte, byte,
}
use zmq_cn_comment.Wire.{put_uint32}
use zmq_cn_comment.Codec.Ws.{apply_mask}
use zmq_cn_comment.Codec.Ws.Xor.{xor_twice}

pub apply_mask_byte :
    (mask : List ℕ) (i b : ℕ) (bs : List ℕ)
    → i + 1 < 2 ^ 31
    → apply_mask mask i (b ∷ bs) ≡ bit_xor b (get_or mask (i % 4) 0) ∷ apply_mask mask (i + 1) bs
unfolding apply_mask
apply_mask_byte mask i b bs lt =
    let fits : ltb (i + 1) (2 ^ 31) ≡ true = ground arith in
    ap (λ t. if t then bit_xor b (get_or mask (i % 4) 0) ∷ apply_mask mask (i + 1) bs else []) fits

apply_mask_nil : (mask : List ℕ) (i : ℕ) → length (apply_mask mask i []) ≡ 0
unfolding apply_mask
apply_mask_nil mask i = refl

masked_nil : (mask : List ℕ) (i : ℕ) → apply_mask mask i (apply_mask mask i []) ≡ []
unfolding apply_mask
masked_nil mask i = refl

pub length-apply_mask :
    (mask : List ℕ) (i : ℕ) (bytes : List ℕ)
    → i + length bytes < 2 ^ 31
    → length (apply_mask mask i bytes) ≡ length bytes
length-apply_mask mask i [] lt = apply_mask_nil mask i
length-apply_mask mask i (b ∷ bs) lt =
    ap length (apply_mask_byte mask i b bs (omega arith))
    ∙ ap suc (length-apply_mask mask (i + 1) bs (omega arith))

get_or_byte : (mask : List ℕ) (i : ℕ) → IsBytes mask → get_or mask i 0 < 256
get_or_byte [] i no_byte = omega arith
get_or_byte (b ∷ bs) zero (byte h hs) = h
get_or_byte (b ∷ bs) (suc i) (byte h hs) = get_or_byte bs i hs

pub put_uint32-IsBytes : (v : ℕ) → IsBytes (put_uint32 v)
unfolding put_uint32
put_uint32-IsBytes v =
    byte (omega arith) (byte (omega arith) (byte (omega arith) (byte (omega arith) no_byte)))

pub masked_once :
    (mask : List ℕ) (i b : ℕ)
    → IsBytes mask
    → b < 256
    → bit_xor (bit_xor b (get_or mask i 0)) (get_or mask i 0) ≡ b
masked_once mask i b h lt = xor_twice b (get_or mask i 0) lt (get_or_byte mask i h)

pub apply_mask_twice :
    (mask : List ℕ) (i : ℕ) (bytes : List ℕ)
    → IsBytes mask
    → IsBytes bytes
    → i + length bytes < 2 ^ 31
    → apply_mask mask i (apply_mask mask i bytes) ≡ bytes
apply_mask_twice mask i [] h no_byte lt = masked_nil mask i
apply_mask_twice mask i (b ∷ bs) h (byte small hs) lt =
    ap (apply_mask mask i) (apply_mask_byte mask i b bs (omega arith))
    ∙ apply_mask_byte mask i _ (apply_mask mask (i + 1) bs) (omega arith)
    ∙ ap₂ (λ x xs. x ∷ xs) (masked_once mask (i % 4) b h small)
        (apply_mask_twice mask (i + 1) bs h hs (omega arith))
