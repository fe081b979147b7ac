-- ===== src/Z85/RoundTrip.antt =====
-- Decoding what was encoded gives the bytes back.
use zmq_cn_comment.Base.{
  ℕ, ◌+◌, ◌-◌, ◌*◌, ◌/◌, ◌%◌, ◌^◌, ◌<◌, ◌≡◌, refl, ap, ◌∙◌, Bool, true, false, ◌&&◌, ◌||◌, List, [],
  ◌∷◌, ◌++◌, some, length, ltb, leb, ◌==◌, arith, all_below, all_below_lem, IsBytes, byte,
}
use zmq_cn_comment.Z85.{
  encode_digit, decode_index, emit, digits, encode_all, encode_loop, encode, decode_loop, decode,
}

-- Whether the tables agree on a digit.
abbrev agrees : ℕ → Bool
agrees d =
    (decode_index ((encode_digit d + 224) % 256) == d) && ltb ((encode_digit d + 224) % 256) 96

tables_agree : all_below agrees 85 ≡ true
unfolding encode_digit decode_index
tables_agree = refl

tables_lem :
    (d : ℕ)
    → d < 85
    → (decode_index ((encode_digit d + 224) % 256) ≡ d) × ((encode_digit d + 224) % 256 < 96)
tables_lem d lt = ground (arith, all_below_lem agrees 85 d tables_agree lt)

-- A character that is no last one of its group of five.
decode_digit :
    (d : ℕ) (cs : List ℕ) (nbr value next : ℕ)
    → d < 85
    → value * 85 + d ≡ next
    → next < 2 ^ 32
    → nbr + 1 < 2 ^ 32
    → ((nbr + 1) % 5 == 0) ≡ false
    → decode_loop (encode_digit d ∷ cs) nbr value ≡ decode_loop cs (nbr + 1) next
unfolding decode_loop
decode_digit d cs nbr value next lt e fits below inside =
    let count : (nbr + 1) % 2 ^ 32 ≡ nbr + 1 = omega arith in
    let t = tables_lem d lt in
    let whole : value * 85 % 2 ^ 32 ≡ value * 85 = omega arith in
    let small : ltb (4294967295 / 85) value ≡ false = ground arith in
    let known : leb 96 ((encode_digit d + 224) % 256) ≡ false = ground (arith, t.1) in
    let valid : (d == 255) || ltb (4294967295 - value * 85) d ≡ false = ground arith in
    rw (count, t.0, whole, small, known, valid, inside, e) refl

-- The last character of a group.
decode_last :
    (d : ℕ) (cs : List ℕ) (nbr value next : ℕ)
    → d < 85
    → value * 85 + d ≡ next
    → next < 2 ^ 32
    → nbr + 1 < 2 ^ 32
    → ((nbr + 1) % 5 == 0) ≡ true
    → decode_loop (encode_digit d ∷ cs) nbr value
      ≡ emit (digits 4 256 (256 * 256 * 256) next) (decode_loop cs (nbr + 1) 0)
unfolding decode_loop
decode_last d cs nbr value next lt e fits below last =
    let count : (nbr + 1) % 2 ^ 32 ≡ nbr + 1 = omega arith in
    let t = tables_lem d lt in
    let whole : value * 85 % 2 ^ 32 ≡ value * 85 = omega arith in
    let small : ltb (4294967295 / 85) value ≡ false = ground arith in
    let known : leb 96 ((encode_digit d + 224) % 256) ≡ false = ground (arith, t.1) in
    let valid : (d == 255) || ltb (4294967295 - value * 85) d ≡ false = ground arith in
    rw (count, t.0, whole, small, known, valid, last, e) refl

-- The five characters of a word of 32 bits give its four bytes.
decode_word :
    (v : ℕ) (cs : List ℕ) (nbr : ℕ)
    → v < 2 ^ 32
    → nbr + 5 < 2 ^ 32
    → nbr % 5 ≡ 0
    → decode_loop (encode_all (digits 5 85 (85 * 85 * 85 * 85) v) ++ cs) nbr 0
      ≡ emit (digits 4 256 (256 * 256 * 256) v) (decode_loop cs (nbr + 1 + 1 + 1 + 1 + 1) 0)
decode_word v cs nbr lt below start =
    let v0 : 0 * 85 + v / 52200625 % 85 ≡ v / 52200625 = omega arith in
    let v1 : v / 52200625 * 85 + v / 614125 % 85 ≡ v / 614125 = omega arith in
    let v2 : v / 614125 * 85 + v / 7225 % 85 ≡ v / 7225 = omega arith in
    let v3 : v / 7225 * 85 + v / 85 % 85 ≡ v / 85 = omega arith in
    let v4 : v / 85 * 85 + v / 1 % 85 ≡ v = omega arith in
    decode_digit (v / 52200625 % 85) _ nbr 0 (v / 52200625) (omega arith) v0 (omega arith)
      (omega arith) (ground arith)
    ∙ decode_digit (v / 614125 % 85) _ (nbr + 1) (v / 52200625) (v / 614125) (omega arith) v1
        (omega arith) (omega arith) (ground arith)
    ∙ decode_digit (v / 7225 % 85) _ (nbr + 1 + 1) (v / 614125) (v / 7225) (omega arith) v2
        (omega arith) (omega arith) (ground arith)
    ∙ decode_digit (v / 85 % 85) _ (nbr + 1 + 1 + 1) (v / 7225) (v / 85) (omega arith) v3
        (omega arith) (omega arith) (ground arith)
    ∙ decode_last (v / 1 % 85) cs (nbr + 1 + 1 + 1 + 1) (v / 85) v (omega arith) v4 lt (omega arith)
        (ground arith)

abbrev word : ℕ → ℕ → ℕ → ℕ → ℕ
word a b c d = ((a * 256 + b) * 256 + c) * 256 + d

-- Four bytes are encoded together.
encode_word :
    (a b c d : ℕ) (bs : List ℕ) (nbr : ℕ)
    → a < 256
    → b < 256
    → c < 256
    → d < 256
    → nbr + 4 < 2 ^ 32
    → nbr % 4 ≡ 0
    → encode_loop (a ∷ b ∷ c ∷ d ∷ bs) nbr 0
      ≡ encode_all (digits 5 85 (85 * 85 * 85 * 85) (word a b c d))
        ++ encode_loop bs (nbr + 1 + 1 + 1 + 1) 0
unfolding encode_loop
encode_word a b c d bs nbr ha hb hc hd below start =
    let c1 : (nbr + 1) % 2 ^ 32 ≡ nbr + 1 = omega arith in
    let c2 : (nbr + 1 + 1) % 2 ^ 32 ≡ nbr + 1 + 1 = omega arith in
    let c3 : (nbr + 1 + 1 + 1) % 2 ^ 32 ≡ nbr + 1 + 1 + 1 = omega arith in
    let c4 : (nbr + 1 + 1 + 1 + 1) % 2 ^ 32 ≡ nbr + 1 + 1 + 1 + 1 = omega arith in
    let n1 : ((nbr + 1) % 4 == 0) ≡ false = ground arith in
    let n2 : ((nbr + 1 + 1) % 4 == 0) ≡ false = ground arith in
    let n3 : ((nbr + 1 + 1 + 1) % 4 == 0) ≡ false = ground arith in
    let n4 : ((nbr + 1 + 1 + 1 + 1) % 4 == 0) ≡ true = ground arith in
    let w1 : (0 * 256 + a) % 2 ^ 32 ≡ a = omega arith in
    let w2 : (a * 256 + b) % 2 ^ 32 ≡ a * 256 + b = omega arith in
    let w3 : ((a * 256 + b) * 256 + c) % 2 ^ 32 ≡ (a * 256 + b) * 256 + c = omega arith in
    let w4 : word a b c d % 2 ^ 32 ≡ word a b c d = omega arith in
    rw (c1, c2, c3, c4, n1, n2, n3, n4, w1, w2, w3, w4) refl

word_bytes :
    (a b c d : ℕ)
    → a < 256
    → b < 256
    → c < 256
    → d < 256
    → digits 4 256 (256 * 256 * 256) (word a b c d) ≡ a ∷ b ∷ c ∷ d ∷ []
word_bytes a b c d ha hb hc hd =
    let e0 : word a b c d / 16777216 % 256 ≡ a = omega arith in
    let e1 : word a b c d / 65536 % 256 ≡ b = omega arith in
    let e2 : word a b c d / 256 % 256 ≡ c = omega arith in
    let e3 : word a b c d / 1 % 256 ≡ d = omega arith in rw (e0, e1, e2, e3) refl

decode_loop-encode_loop :
    (bytes : List ℕ) (n k : ℕ)
    → IsBytes bytes
    → length bytes % 4 ≡ 0
    → n % 4 ≡ 0
    → k % 5 ≡ 0
    → n + length bytes < 2 ^ 32
    → k * 4 + length bytes * 5 < 2 ^ 34
    → decode_loop (encode_loop bytes n 0) k 0 ≡ some bytes
unfolding encode_loop decode_loop
decode_loop-encode_loop [] n k h whole hn hk ln lk =
    let at_end : (k % 5 == 0) ≡ true = ground arith in rw at_end refl
decode_loop-encode_loop (a ∷ []) n k h whole hn hk ln lk = absurd (omega arith)
decode_loop-encode_loop (a ∷ b ∷ []) n k h whole hn hk ln lk = absurd (omega arith)
decode_loop-encode_loop (a ∷ b ∷ c ∷ []) n k h whole hn hk ln lk = absurd (omega arith)
decode_loop-encode_loop (a ∷ b ∷ c ∷ d ∷ bytes) n k (byte ha (byte hb (byte hc (byte hd h)))) whole
      hn hk ln lk =
    ap (λ t. decode_loop t k 0) (encode_word a b c d bytes n ha hb hc hd (omega arith) hn)
    ∙ decode_word (word a b c d) _ k (omega arith) (omega arith) hk
    ∙ ap (emit (digits 4 256 (256 * 256 * 256) (word a b c d))) (
        decode_loop-encode_loop bytes (n + 1 + 1 + 1 + 1) (k + 1 + 1 + 1 + 1 + 1) h (omega arith)
          (omega arith) (omega arith) (omega arith) (omega arith))
    ∙ ap (λ t. some (t ++ bytes)) (word_bytes a b c d ha hb hc hd)

length-encode_loop :
    (bytes : List ℕ) (n : ℕ)
    → IsBytes bytes
    → length bytes % 4 ≡ 0
    → n % 4 ≡ 0
    → n + length bytes < 2 ^ 32
    → length (encode_loop bytes n 0) * 4 ≡ length bytes * 5
unfolding encode_loop
length-encode_loop [] n h whole hn ln = refl
length-encode_loop (a ∷ []) n h whole hn ln = absurd (omega arith)
length-encode_loop (a ∷ b ∷ []) n h whole hn ln = absurd (omega arith)
length-encode_loop (a ∷ b ∷ c ∷ []) n h whole hn ln = absurd (omega arith)
length-encode_loop (a ∷ b ∷ c ∷ d ∷ bytes) n (byte ha (byte hb (byte hc (byte hd h)))) whole hn ln =
    omega (
      arith,
      ap length (encode_word a b c d bytes n ha hb hc hd (omega arith) hn),
      length-encode_loop bytes (n + 1 + 1 + 1 + 1) h (omega arith) (omega arith) (omega arith),
    )

-- Bytes, at least one and in number a multiple of four, so few that their string has less than 2 ^ 32
-- characters, are encoded as five characters for every four
-- bytes, and decoding the characters gives the bytes back.
pub decode-encode :
    (bytes : List ℕ)
    → IsBytes bytes
    → length bytes % 4 ≡ 0
    → 0 < length bytes
    → length bytes * 5 < 2 ^ 34
    → (string : List ℕ) × (encode bytes ≡ some string)
      × (length string * 4 ≡ length bytes * 5)
      × (decode string ≡ some bytes)
unfolding encode decode
decode-encode bytes h whole pos short =
    let len = length-encode_loop bytes 0 h whole (omega arith) (omega arith) in
    let multiple : (length bytes % 4 == 0) ≡ true = ground arith in
    let long : ltb (length (encode_loop bytes 0 0)) 5 || ltb 0 (length (encode_loop bytes 0 0) % 5)
        ≡ false =
      ground arith in
    (
      encode_loop bytes 0 0,
      rw multiple refl,
      len,
      rw long (
          decode_loop-encode_loop bytes 0 0 h whole (omega arith) (omega arith) (omega arith)
            (omega arith)),
    )
