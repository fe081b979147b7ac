-- ===== src/Codec/Decoder.antt =====
-- src/decoder.hpp, `decoder_base_t`: the loop that hands the bytes of a buffer to the steps of a
-- protocol decoder.
pub mod Chunks
pub mod Stream
use zmq_cn_comment.Base.{
  ℕ, zero, suc, ◌+◌, ◌-◌, ◌<◌, ◌≡◌, min, List, [], ◌∷◌, ◌++◌, length, take, drop, if◌then◌else◌,
  ◌==◌,
}
use zmq_cn_comment.Errno.{Errno}

-- What a step returns: 0 (go on), 1 (a message is complete), -1 with errno.
pub data Rc : Type 0 where
  again ready : Rc
  fail : Errno → Rc

-- `filled` holds the bytes stored at the destination of `next_step` up to `_read_pos`; `ctl` is the
-- state of the derived class with the step `_next` that is due.
pub record Decoder (C : Type 0) : Type 0 where
  pub ctl : C
  pub to_read : ℕ
  pub filled : List ℕ

abbrev pub next_step : {C : Type 0} → C → ℕ → Decoder C
next_step c n = record { ctl = c; to_read = n; filled = [] }

-- What `decode` returns: the code, the decoder after it, and `bytes_used_`.
abbrev pub Decoded : Type 0 → Type 0
Decoded C = Rc × Decoder C × ℕ

-- The bytes stored: memcpy, read_pos += n, to_read -= n.
abbrev pub absorb : {C : Type 0} → Decoder C → List ℕ → Decoder C
absorb d xs = record d { to_read = d.to_read - length xs; filled = d.filled ++ xs }

-- if (rc != 0) return rc; otherwise the loop goes on.
abbrev pub then_loop : {C : Type 0} → (Decoder C → Decoded C) → Rc × Decoder C → ℕ → Decoded C
then_loop k (again, d) used = k d
then_loop k (ready, d) used = (ready, d, used)
then_loop k (fail e, d) used = (fail e, d, used)

abbrev pub then_settle :
    {C : Type 0} → (Decoder C → Rc × Decoder C) → Rc × Decoder C → Rc × Decoder C
then_settle k (again, d) = k d
then_settle k (ready, d) = (ready, d)
then_settle k (fail e, d) = (fail e, d)

-- One step that ends a header and one on a message of no bytes are all that follow each other.
abbrev pub step_fuel : ℕ
step_fuel = 2

module _ {C : Type 0} (step : Decoder C → Rc × Decoder C) where
  -- while (to_read == 0) { rc = (this->*next) (); if (rc != 0) return rc; }
  unfoldable pub settle : ℕ → Decoder C → Rc × Decoder C
  settle zero d = (again, d)
  settle (suc fuel) d =
      let rest = then_settle (settle fuel) (step d) in if d.to_read == 0 then rest else (again, d)

  -- while (bytes_used < size) { ... }
  unfoldable pub decode_loop : ℕ → Decoder C → List ℕ → ℕ → Decoded C
  decode_loop zero d bytes used = (again, d, used)
  decode_loop (suc fuel) d [] used = (again, d, used)
  decode_loop (suc fuel) d (b ∷ bs) used =
      let n = min d.to_read (length (b ∷ bs)) in
      then_loop (λ d'. decode_loop fuel d' (drop n (b ∷ bs)) (used + n))
        (settle step_fuel (absorb d (take n (b ∷ bs)))) (used + n)

  -- `decode` where the bytes stand in the buffer of the decoder.
  unfoldable pub decode : Decoder C → List ℕ → Decoded C
  decode d bytes = decode_loop (length bytes) d bytes 0

  -- `decode` where the caller has written the bytes to `_read_pos` itself (data_ == _read_pos).
  unfoldable pub decode_direct : Decoder C → List ℕ → Decoded C
  decode_direct d bytes =
      then_loop (λ d'. (again, d', length bytes)) (settle step_fuel (absorb d bytes)) (length bytes)

-- What `decoder_base_t` asks of the class derived from it: after at most two steps the decoder has
-- returned to its caller or waits for bytes.
pub record Machine (C : Type 0) : Type 0 where
  pub step : Decoder C → Rc × Decoder C
  pub settles : (d : Decoder C) → (settle step 2 d).0 ≡ again → 0 < (settle step 2 d).1.to_read
