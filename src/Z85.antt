-- ===== src/Z85.antt =====
-- src/zmq_utils.cpp, zmq_z85_encode and zmq_z85_decode: four bytes are written as five characters.
-- Bytes and characters are numbers below 256; the string ends where its list does. `none` is NULL with
-- EINVAL. byte_nbr and char_nbr are unsigned ints: they wrap at 2 ^ 32. The lists are read from the front,
-- which is what the source does as long as no counter wraps, that is below 2 ^ 32 bytes and characters; for
-- longer data, where the source would start again at the front, the theorems say nothing.
pub mod RoundTrip
mod Tests
use zmq_cn_comment.Base.{
  ℕ, zero, suc, ◌+◌, ◌-◌, ◌*◌, ◌/◌, ◌%◌, ◌^◌, ◌||◌, List, [], ◌∷◌, ◌++◌, Option, none, some, length,
  get_or, if◌then◌else◌, ltb, leb, ◌==◌,
}

abbrev pub encoder : List ℕ
encoder =
    48 ∷ 49 ∷ 50 ∷ 51 ∷ 52 ∷ 53 ∷ 54 ∷ 55 ∷ 56 ∷ 57 ∷ 97 ∷ 98 ∷ 99 ∷ 100 ∷ 101 ∷ 102 ∷ 103 ∷ 104
    ∷ 105 ∷ 106 ∷ 107 ∷ 108 ∷ 109 ∷ 110 ∷ 111 ∷ 112 ∷ 113 ∷ 114 ∷ 115 ∷ 116 ∷ 117 ∷ 118 ∷ 119 ∷ 120
    ∷ 121 ∷ 122 ∷ 65 ∷ 66 ∷ 67 ∷ 68 ∷ 69 ∷ 70 ∷ 71 ∷ 72 ∷ 73 ∷ 74 ∷ 75 ∷ 76 ∷ 77 ∷ 78 ∷ 79 ∷ 80 ∷ 81
    ∷ 82 ∷ 83 ∷ 84 ∷ 85 ∷ 86 ∷ 87 ∷ 88 ∷ 89 ∷ 90 ∷ 46 ∷ 45 ∷ 58 ∷ 43 ∷ 61 ∷ 94 ∷ 33 ∷ 47 ∷ 42 ∷ 63
    ∷ 38 ∷ 60 ∷ 62 ∷ 40 ∷ 41 ∷ 91 ∷ 93 ∷ 123 ∷ 125 ∷ 64 ∷ 37 ∷ 36 ∷ 35 ∷ []

abbrev pub decoder : List ℕ
decoder =
    255 ∷ 68 ∷ 255 ∷ 84 ∷ 83 ∷ 82 ∷ 72 ∷ 255 ∷ 75 ∷ 76 ∷ 70 ∷ 65 ∷ 255 ∷ 63 ∷ 62 ∷ 69 ∷ 0 ∷ 1 ∷ 2
    ∷ 3 ∷ 4 ∷ 5 ∷ 6 ∷ 7 ∷ 8 ∷ 9 ∷ 64 ∷ 255 ∷ 73 ∷ 66 ∷ 74 ∷ 71 ∷ 81 ∷ 36 ∷ 37 ∷ 38 ∷ 39 ∷ 40 ∷ 41
    ∷ 42 ∷ 43 ∷ 44 ∷ 45 ∷ 46 ∷ 47 ∷ 48 ∷ 49 ∷ 50 ∷ 51 ∷ 52 ∷ 53 ∷ 54 ∷ 55 ∷ 56 ∷ 57 ∷ 58 ∷ 59 ∷ 60
    ∷ 61 ∷ 77 ∷ 255 ∷ 78 ∷ 67 ∷ 255 ∷ 255 ∷ 10 ∷ 11 ∷ 12 ∷ 13 ∷ 14 ∷ 15 ∷ 16 ∷ 17 ∷ 18 ∷ 19 ∷ 20
    ∷ 21 ∷ 22 ∷ 23 ∷ 24 ∷ 25 ∷ 26 ∷ 27 ∷ 28 ∷ 29 ∷ 30 ∷ 31 ∷ 32 ∷ 33 ∷ 34 ∷ 35 ∷ 79 ∷ 255 ∷ 80 ∷ 255
    ∷ 255 ∷ []

-- encoder[digit]
pub encode_digit : ℕ → ℕ
encode_digit d = get_or encoder d 0

-- decoder[index]
pub decode_index : ℕ → ℕ
decode_index i = get_or decoder i 255

-- while (divisor) { out (value / divisor % base); divisor /= base; }, with the rounds left.
abbrev pub digits : ℕ → ℕ → ℕ → ℕ → List ℕ
digits zero base divisor value = []
digits (suc rounds) base divisor value =
    value / divisor % base ∷ digits rounds base (divisor / base) value

abbrev pub encode_all : List ℕ → List ℕ
encode_all [] = []
encode_all (d ∷ ds) = encode_digit d ∷ encode_all ds

-- while (byte_nbr < size) { ... }
pub encode_loop : List ℕ → ℕ → ℕ → List ℕ
encode_loop [] byte_nbr value = []
encode_loop (b ∷ bs) byte_nbr value =
    let v = (value * 256 + b) % 2 ^ 32 in
    let nbr = (byte_nbr + 1) % 2 ^ 32 in
    let rest = encode_loop bs nbr (if nbr % 4 == 0 then 0 else v) in
    if nbr % 4 == 0 then encode_all (digits 5 85 (85 * 85 * 85 * 85) v) ++ rest else rest

pub encode : List ℕ → Option (List ℕ)
unfolding encode_loop
encode bytes = if length bytes % 4 == 0 then some (encode_loop bytes 0 0) else none

abbrev pub emit : List ℕ → Option (List ℕ) → Option (List ℕ)
emit bytes none = none
emit bytes (some rest) = some (bytes ++ rest)

-- while (string[char_nbr]) { ... }
pub decode_loop : List ℕ → ℕ → ℕ → Option (List ℕ)
decode_loop [] char_nbr value = if char_nbr % 5 == 0 then some [] else none
decode_loop (c ∷ cs) char_nbr value =
    let v = value * 85 % 2 ^ 32 in
    let index = (c + 224) % 256 in
    let summand = decode_index index in
    let nbr = (char_nbr + 1) % 2 ^ 32 in
    let rest = decode_loop cs nbr (if nbr % 5 == 0 then 0 else v + summand) in
    if ltb (4294967295 / 85) value
    then none
    else if leb 96 index
    then none
    else if (summand == 255) || ltb (4294967295 - v) summand
    then none
    else if nbr % 5 == 0
    then emit (digits 4 256 (256 * 256 * 256) (v + summand)) rest
    else rest

pub decode : List ℕ → Option (List ℕ)
unfolding decode_loop
decode string =
    if ltb (length string) 5 || ltb 0 (length string % 5) then none else decode_loop string 0 0
