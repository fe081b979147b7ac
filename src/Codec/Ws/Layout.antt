-- ===== src/Codec/Ws/Layout.antt =====
-- The parts of a WebSocket frame as the encoder lays them out, and as the decoder takes them.
use zmq_cn_comment.Base.{
  ℕ, ◌+◌, ◌^◌, ◌<◌, ◌≡◌, refl, sym, ap, ap₂, ◌∙◌, Bool, true, false, ◌||◌, List, [], ◌∷◌, ◌++◌,
  some, length, ◌==◌, if◌then◌else◌, append_assoc, append-nil, length-append, arith, IsBytes,
}
use zmq_cn_comment.Message.{
  Msg, more_flag, command_flag, has_more, is_command, is_subscribe, is_cancel, is_ping, is_pong,
}
use zmq_cn_comment.Wire.{put_uint32}
use zmq_cn_comment.Codec.V2.{flag_if, mark}
use zmq_cn_comment.Codec.Ws.{Control, Config, opcode_binary, opcode_flags, apply_mask}
use zmq_cn_comment.Codec.Ws.Encoder.{
  opcode_of, is_binary, size_bytes, masked_byte, wire_size, flag_byte, flag_bytes, mark_bytes,
  header, body_bytes, frame, payload,
}
use zmq_cn_comment.Codec.Ws.Mask.{
  length-apply_mask, apply_mask_byte, apply_mask_twice, put_uint32-IsBytes,
}
use zmq_cn_comment.Codec.Ws.Feed.{received_body}
use zmq_cn_comment.Codec.Ws.Parts.{flag_part}

-- The flags that the decoder gives to a ping, a pong or a close command.
unfoldable pub control_flags : Msg → ℕ
control_flags m = if is_ping m then 6 else if is_pong m then 10 else 22

-- The flags of the message that the decoder delivers.
unfoldable pub received_flags : Msg → ℕ
received_flags m =
    if is_binary m
    then flag_if (has_more m) more_flag + flag_if (is_command m) command_flag
    else control_flags m

pub opcode_of-flags :
    (m : Msg) → opcode_flags (opcode_of m) ≡ some (if is_binary m then 0 else control_flags m)
unfolding opcode_of is_binary control_flags
opcode_of-flags m = ground arith

pub opcode_of-binary : (m : Msg) → (opcode_of m == opcode_binary) ≡ is_binary m
unfolding opcode_of is_binary
opcode_of-binary m = ground arith

pub opcode_of_small : (m : Msg) → opcode_of m < 16
unfolding opcode_of
opcode_of_small m = ground arith

-- The payload as it is sent.
abbrev pub sent : Bool → ℕ → Msg → List ℕ
sent mm random m =
    if mm then apply_mask (put_uint32 random) (flag_if (is_binary m) 1) (payload m) else payload m

-- If the payload is masked, the index into the mask fits an int for all of it.
abbrev pub IsMaskable : Bool → Msg → Type 0
IsMaskable mm m = mm ≡ true → flag_if (is_binary m) 1 + length (payload m) < 2 ^ 31

pub length-sent :
    (mm : Bool) (random : ℕ) (m : Msg)
    → IsMaskable mm m
    → length (sent mm random m) ≡ length (payload m)
length-sent true random m few =
    length-apply_mask (put_uint32 random) (flag_if (is_binary m) 1) (payload m) (few refl)
length-sent false random m few = refl

mark_sent :
    (mask body : List ℕ) (mm sub cancel binary : Bool)
    → (if sub
          then masked_byte mm mask (flag_if binary 1) 1 ∷ []
          else if cancel
          then masked_byte mm mask (flag_if binary 1) 0 ∷ []
          else [])
        ++ (if mm
            then apply_mask mask (flag_if binary 1 + flag_if (sub || cancel) 1) body
            else body)
      ≡ (if mm
          then apply_mask mask (flag_if binary 1) (mark sub cancel ++ body)
          else mark sub cancel ++ body)
mark_sent mask body true true cancel true = sym (apply_mask_byte mask 1 1 body (omega arith))
mark_sent mask body true true cancel false = sym (apply_mask_byte mask 0 1 body (omega arith))
mark_sent mask body true false true true = sym (apply_mask_byte mask 1 0 body (omega arith))
mark_sent mask body true false true false = sym (apply_mask_byte mask 0 0 body (omega arith))
mark_sent mask body true false false true = refl
mark_sent mask body true false false false = refl
mark_sent mask body false true cancel binary = refl
mark_sent mask body false false true binary = refl
mark_sent mask body false false false binary = refl

length-mark :
    (body : List ℕ) (sub cancel : Bool)
    → length (mark sub cancel ++ body) ≡ length body + flag_if (sub || cancel) 1
length-mark body true cancel = omega arith
length-mark body false true = omega arith
length-mark body false false = omega arith

wire_size-payload : (m : Msg) → wire_size m ≡ length (payload m) + flag_if (is_binary m) 1
unfolding wire_size payload
wire_size-payload m = omega (arith, length-mark m.body (is_subscribe m) (is_cancel m))

mark_bytes-body_bytes :
    (mm : Bool) (random : ℕ) (m : Msg)
    → mark_bytes mm (put_uint32 random) m ++ body_bytes mm random m ≡ sent mm random m
unfolding mark_bytes body_bytes payload
mark_bytes-body_bytes mm random m =
    mark_sent (put_uint32 random) m.body mm (is_subscribe m) (is_cancel m) (is_binary m)

parts_assoc :
    (a b f k body rest : List ℕ)
    → ((a ++ (b ++ (f ++ k))) ++ body) ++ rest ≡ a ++ (b ++ (f ++ ((k ++ body) ++ rest)))
parts_assoc a b f k body rest = simp append_assoc

length-parts :
    (a b f body : List ℕ)
    → length (a ++ (b ++ (f ++ (body ++ [])))) ≡ length a + length b + length f + length body
length-parts a b f body = simp length-append (omega arith)

pub flag_if_small : (b : Bool) → flag_if b 1 < 2
flag_if_small b = ground arith

module _ (c : Config) (random : ℕ) (m : Msg) where
  abbrev pub mask_part : List ℕ
  mask_part = if c.must_mask then put_uint32 random else []

  abbrev pub flags_part : List ℕ
  flags_part = flag_part c (is_binary m) (put_uint32 random) (has_more m) (is_command m)

  abbrev pub size_part : List ℕ
  size_part = size_bytes c.must_mask (length (sent c.must_mask random m) + flag_if (is_binary m) 1)

  pub frame_split :
      (rest : List ℕ)
      → IsMaskable c.must_mask m
      → frame c.must_mask random m ++ rest
        ≡ ((128 + opcode_of m) ∷ [])
          ++ (size_part ++ (mask_part ++ (flags_part ++ (sent c.must_mask random m ++ rest))))
  unfolding frame header flag_bytes flag_byte
  frame_split rest few =
      ap (λ t. (128 + opcode_of m) ∷ t)
        (parts_assoc (size_bytes c.must_mask (wire_size m)) mask_part flags_part
            (mark_bytes c.must_mask (put_uint32 random) m) (body_bytes c.must_mask random m) rest
          ∙ ap₂ (λ n t. size_bytes c.must_mask n ++ (mask_part ++ (flags_part ++ (t ++ rest)))) size
              (mark_bytes-body_bytes c.must_mask random m))
    where
      size : wire_size m ≡ length (sent c.must_mask random m) + flag_if (is_binary m) 1
      size = omega (arith, wire_size-payload m, length-sent c.must_mask random m few)

  pub length-frame :
      IsMaskable c.must_mask m
      → length (frame c.must_mask random m)
        ≡ 1 + length size_part + length mask_part + length flags_part + length (payload m)
  length-frame few = omega (
    arith,
    ap length (sym (append-nil (frame c.must_mask random m)) ∙ frame_split [] few),
    length-parts size_part mask_part flags_part (sent c.must_mask random m),
    length-sent c.must_mask random m few,
  )

  -- The body comes out as it went in.
  pub received_body-sent :
      (masked : Bool) (k : Control)
      → c.must_mask ≡ masked
      → (k.opcode == opcode_binary) ≡ is_binary m
      → (masked ≡ true → k.mask ≡ put_uint32 random)
      → IsBytes (payload m)
      → IsMaskable masked m
      → received_body c k (sent masked random m) ≡ payload m
  received_body-sent true k e op mask h few =
      ap
        (λ b.
          if b then unmasked (flag_if (k.opcode == opcode_binary) 1) k.mask else sent true random m)
        e
      ∙ ap₂ (λ b x. unmasked (flag_if b 1) x) op (mask refl)
      ∙ apply_mask_twice (put_uint32 random) (flag_if (is_binary m) 1) (payload m)
          (put_uint32-IsBytes random) h (few refl)
    where
      unmasked : ℕ → List ℕ → List ℕ
      unmasked i x = apply_mask x i (sent true random m)
  received_body-sent false k e op mask h few = rw e
