-- ===== src/Z85/Tests.antt =====
-- Z85 on concrete bytes.
use zmq_cn_comment.Base.{
  IsBytes, no_byte, byte, ℕ, ◌*◌, ◌≡◌, refl, List, [], ◌∷◌, some, length, arith,
}
use zmq_cn_comment.Z85.{encode, decode}
use zmq_cn_comment.Z85.RoundTrip.{decode-encode}

abbrev four_bytes : List ℕ
four_bytes = 134 ∷ 79 ∷ 210 ∷ 111 ∷ []

four_bytes-IsBytes : IsBytes four_bytes
four_bytes-IsBytes =
    byte (omega arith) (byte (omega arith) (byte (omega arith) (byte (omega arith) no_byte)))

decode-encode_example :
    (string : List ℕ) × (encode four_bytes ≡ some string)
    × (length string * 4 ≡ length four_bytes * 5)
    × (decode string ≡ some four_bytes)
decode-encode_example = decode-encode four_bytes four_bytes-IsBytes refl (omega arith) (omega arith)
