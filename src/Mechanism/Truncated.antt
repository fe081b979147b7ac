-- ===== src/Mechanism/Truncated.antt =====
-- Metadata that breaks off within a property.
use zmq_cn_comment.Base.{
  ℕ, zero, suc, ◌+◌, ◌-◌, ◌%◌, ◌<◌, ◌≤◌, ◌^◌, ◌≡◌, refl, ap, ◌∙◌, Bool, true, false, ◌&&◌, ◌||◌,
  List, [], ◌∷◌, ◌++◌, Option, none, some, Bool-cases, inl, inr, if◌then◌else◌, ltb, leb, ◌==◌,
  length, take, drop, length-append, length-take, drop-length, drop-take, arith,
}
use zmq_cn_comment.Errno.{Errno, eproto}
use zmq_cn_comment.Wire.{put_uint32, get_uint32, get_uint32-put_uint32, length-put_uint32}
use zmq_cn_comment.Mechanism.{
  Property, Mechanism, Next, broken, next_value, next_size, next_name, next_property, parse_next,
  parse_loop, parse_metadata,
}
use zmq_cn_comment.Mechanism.Metadata.{fits, written, length-written}

-- The result where n bytes are left.
abbrev left : ℕ → Mechanism → Option Errno × Mechanism
left n m = (if ltb 0 n then some eproto else none, m)

-- The next property breaks off where n bytes are left.
abbrev BrokenAt : ℕ → Next → Type 0
BrokenAt n x = (rest : List ℕ) × (x ≡ broken rest) × (length rest ≡ n)

length_cut : (n : ℕ) (bs : List ℕ) → n ≤ length bs → length (take n bs) ≡ n
length_cut n bs h = omega (arith, length-take n bs, h)

value_cut :
    (name value : List ℕ) (n : ℕ)
    → n < length value
    → BrokenAt n (next_value name (length value) (take n value))
unfolding next_value
value_cut name value n h =
    let cut : length (take n value) ≡ n = length_cut n value (omega (arith, h)) in
    let short : ltb (length (take n value)) (length value) ≡ true = ground (arith, cut, h) in
    (take n value, rw short refl, cut)

size_cut :
    (name value : List ℕ) (n : ℕ)
    → length value < 2 ^ 32
    → n < 4 + length value
    → BrokenAt
        (if ltb n 4 then n else n - 4)
        (next_size name (take n (put_uint32 (length value) ++ value)))
unfolding next_size put_uint32
size_cut name value zero small h = ([], refl, refl)
size_cut name value (suc zero) small h = (take 1 (put_uint32 (length value)), refl, refl)
size_cut name value (suc (suc zero)) small h = (take 2 (put_uint32 (length value)), refl, refl)
size_cut name value (suc (suc (suc zero))) small h =
    (take 3 (put_uint32 (length value)), refl, refl)
size_cut name value (suc (suc (suc (suc n)))) small h =
    let bs = put_uint32 (length value) ++ take n value in
    let enough : ltb (length bs) 4 ≡ false =
      ground (arith, length-append (put_uint32 (length value)) (take n value)) in
    let at : n ≡ (
        if ltb (suc (suc (suc (suc n)))) 4
        then suc (suc (suc (suc n)))
        else suc (suc (suc (suc n))) - 4) =
      ground arith in
    let (rest, breaks, left) = value_cut name value n (omega (arith, h)) in
    (
      rest,
      ap (λ b. if b then broken bs else next_value name (get_uint32 bs) (take n value)) enough
          ∙ ap (λ v. next_value name v (take n value))
              (get_uint32-put_uint32 (length value) (take n value) small)
          ∙ breaks,
      left ∙ at,
    )

name_cut :
    (name value : List ℕ) (n : ℕ)
    → length value < 2 ^ 32
    → n < length name + (4 + length value)
    → BrokenAt
        (if ltb n (length name)
          then n
          else if ltb (n - length name) 4
          then n - length name
          else n - length name - 4)
        (next_name (length name) (take n (name ++ (put_uint32 (length value) ++ value))))
unfolding next_name
name_cut name value n small h = elim (Bool-cases (ltb n (length name))) [
  | inl short ↦
      let bs = take n (name ++ (put_uint32 (length value) ++ value)) in
      let cut : length bs ≡ n =
        length_cut n (name ++ (put_uint32 (length value) ++ value)) whole_length in
      let breaks : ltb (length bs) (length name) ≡ true = ground (arith, cut) in
      (bs, rw breaks refl, cut ∙ ground arith)
  | inr long ↦
      let tail = put_uint32 (length value) ++ value in
      let bs = take n (name ++ tail) in
      let cut : length bs ≡ n = length_cut n (name ++ tail) whole_length in
      let enough : ltb (length bs) (length name) ≡ false = ground (arith, cut) in
      let (rest, breaks, left) =
        size_cut (take (length name) bs) value (n - length name) small (ground (arith, h)) in
      (
        rest,
        ap (λ b. if b then broken bs else next_size (take (length name) bs) (drop (length name) bs))
              enough
            ∙ ap (next_size (take (length name) bs)) (
                drop-take (length name) n (name ++ tail)
                ∙ ap (take (n - length name)) (drop-length name tail))
            ∙ breaks,
        left ∙ ground arith,
      )
]
  where
    whole_length : n ≤ length (name ++ (put_uint32 (length value) ++ value))
    whole_length = omega (
      arith,
      h,
      length-append name (put_uint32 (length value) ++ value),
      length-append (put_uint32 (length value)) value,
      length-put_uint32 (length value),
    )

-- Metadata that breaks off within its first property is refused with EPROTO, except where it breaks off
-- behind the name, if there is one, or behind the size of the value: then parse_metadata succeeds,
-- and the property is dropped.
pub parse_metadata-take :
    (p : Property) (k : ℕ) (zap_flag : Bool) (m : Mechanism)
    → fits p ≡ true
    → 0 < k
    → k < length (written p)
    → parse_metadata zap_flag (take k (written p)) m ≡ (
      if ((k == length p.0 + 1) && ltb 0 (length p.0)) || (k == length p.0 + 5)
          then none
          else some eproto,
      m,
    )
unfolding parse_metadata parse_loop parse_next next_property
parse_metadata-take p zero zap_flag m h some_left within = absurd (omega (arith, some_left))
parse_metadata-take p (suc zero) zap_flag m h some_left within =
    ap (λ (e : Option Errno). (e, m)) (ground arith)
parse_metadata-take p (suc (suc j)) zap_flag m h some_left within =
    let body = p.0 ++ (put_uint32 (length p.1) ++ p.1) in
    let fit : suc j < length p.0 + (4 + length p.1) = omega (arith, within, length-written p) in
    let size : length p.0 % 256 ≡ length p.0 = ground arith in
    let cut : length (take (suc j) body) ≡ suc j =
      length_cut (suc j) body (omega (arith, within)) in
    let more : leb (suc (length (take (suc j) body))) 1 ≡ false = ground (arith, cut) in
    let (rest, breaks, left) = name_cut p.0 p.1 (suc j) (ground arith) fit in
    let next : next_property ((length p.0 % 256) ∷ take (suc j) body) ≡ broken rest =
      ap
        (λ b.
          if b
          then broken ((length p.0 % 256) ∷ take (suc j) body)
          else next_name (length p.0 % 256) (take (suc j) body))
        more
      ∙ ap (λ n. next_name n (take (suc j) body)) size
      ∙ breaks in
    ap (λ x. parse_next (parse_loop (length (take (suc j) body)) zap_flag) zap_flag x m) next
    ∙ ap (λ (e : Option Errno). (e, m)) (ground (arith, left, fit))
