-- ===== src/Mechanism/Metadata.antt =====
-- What one peer writes as its metadata, the other reads, property by property.
use zmq_cn_comment.Base.{
  ℕ, zero, suc, ◌%◌, ◌^◌, ◌<◌, ◌≤◌, ◌≡◌, refl, ap, ap₂, ◌∙◌, Bool, true, false, ◌&&◌, List, [], ◌∷◌,
  ◌++◌, append_assoc, Option, none, some, if◌then◌else◌, ltb, leb, length, take, drop,
  length-append, take-length, drop-length, arith,
}
use zmq_cn_comment.Errno.{Errno}
use zmq_cn_comment.Wire.{put_uint32, get_uint32, get_uint32-put_uint32, length-put_uint32}
use zmq_cn_comment.Mechanism.{
  Property, Mechanism, property_len, take_property, whole, broken, next_value, next_size, next_name,
  next_property, parse_next, parse_loop,
}

-- The lengths of a property fit what is written of them.
abbrev pub fits : Property → Bool
fits p = leb (length p.0) 255 && leb (length p.1) 2147483647

abbrev pub all_fit : List Property → Bool
all_fit [] = true
all_fit (p ∷ ps) = fits p && all_fit ps

-- A property on the wire.
abbrev pub written : Property → List ℕ
written p = (length p.0 % 256) ∷ p.0 ++ (put_uint32 (length p.1) ++ p.1)

abbrev pub all_written : List Property → List ℕ
all_written [] = []
all_written (p ∷ ps) = written p ++ all_written ps

-- The properties are taken one after the other, up to the first that is refused.
pub take_all : Bool → List Property → Mechanism → Option Errno × Mechanism
take_all zap_flag [] m = (none, m)
take_all zap_flag (p ∷ ps) m =
    let r = take_property zap_flag p.0 p.1 m in
    elim r.0 [ some e ↦ r | none ↦ take_all zap_flag ps r.1 ]

pub length-written : (p : Property) → length (written p) ≡ property_len (length p.0) (length p.1)
length-written p = omega (
  arith,
  length-append p.0 (put_uint32 (length p.1) ++ p.1),
  length-append (put_uint32 (length p.1)) p.1,
  length-put_uint32 (length p.1),
)

value_lem :
    (name value rest : List ℕ)
    → next_value name (length value) (value ++ rest) ≡ whole name value rest
unfolding next_value
value_lem name value rest =
    let enough : ltb (length (value ++ rest)) (length value) ≡ false =
      ground (arith, length-append value rest) in
    ap
      (λ b.
        if b
        then broken (value ++ rest)
        else whole name (take (length value) (value ++ rest)) (drop (length value) (value ++ rest)))
      enough
    ∙ ap₂ (whole name) (take-length value rest) (drop-length value rest)

size_lem :
    (name value rest : List ℕ)
    → length value < 2 ^ 32
    → next_size name (put_uint32 (length value) ++ (value ++ rest)) ≡ whole name value rest
unfolding next_size put_uint32
size_lem name value rest h =
    let enough : ltb (length (put_uint32 (length value) ++ (value ++ rest))) 4 ≡ false =
      ground arith in
    ap
      (λ b.
        if b
        then broken (put_uint32 (length value) ++ (value ++ rest))
        else next_value name (get_uint32 (put_uint32 (length value) ++ (value ++ rest)))
            (value ++ rest))
      enough
    ∙ ap (λ n. next_value name n (value ++ rest))
        (get_uint32-put_uint32 (length value) (value ++ rest) h)
    ∙ value_lem name value rest

name_lem : (name tail : List ℕ) → next_name (length name) (name ++ tail) ≡ next_size name tail
unfolding next_name
name_lem name tail =
    let enough : ltb (length (name ++ tail)) (length name) ≡ false =
      ground (arith, length-append name tail) in
    ap
      (λ b.
        if b
        then broken (name ++ tail)
        else next_size (take (length name) (name ++ tail)) (drop (length name) (name ++ tail)))
      enough
    ∙ ap₂ next_size (take-length name tail) (drop-length name tail)

-- The next property of the bytes is the one written.
next_property-written :
    (p : Property) (rest : List ℕ)
    → fits p ≡ true
    → next_property (written p ++ rest) ≡ whole p.0 p.1 rest
unfolding next_property
next_property-written p rest h =
    let size : length p.0 % 256 ≡ length p.0 = ground arith in
    let more : leb (length (written p ++ rest)) 1 ≡ false =
      ground (arith, length-append (written p) rest, length-written p) in
    let shape : p.0 ++ (put_uint32 (length p.1) ++ p.1) ++ rest
        ≡ p.0 ++ (put_uint32 (length p.1) ++ (p.1 ++ rest)) =
      append_assoc p.0 (put_uint32 (length p.1) ++ p.1) rest
      ∙ ap (λ t. p.0 ++ t) (append_assoc (put_uint32 (length p.1)) p.1 rest) in
    ap
      (λ b.
        if b
        then broken (written p ++ rest)
        else next_name (length p.0 % 256) (drop 1 (written p ++ rest)))
      more
    ∙ ap₂ next_name size shape
    ∙ name_lem p.0 (put_uint32 (length p.1) ++ (p.1 ++ rest))
    ∙ size_lem p.0 p.1 rest (ground arith)

pub parse-written :
    (ps : List Property) (zap_flag : Bool) (fuel : ℕ) (m : Mechanism)
    → all_fit ps ≡ true
    → length ps ≤ fuel
    → parse_loop fuel zap_flag (all_written ps) m ≡ take_all zap_flag ps m
unfolding parse_loop parse_next take_all
parse-written [] zap_flag zero m h enough = refl
parse-written [] zap_flag (suc fuel) m h enough = refl
parse-written (p ∷ ps) zap_flag zero m h enough = absurd (omega (arith, enough))
parse-written (p ∷ ps) zap_flag (suc fuel) m h enough =
    let r = take_property zap_flag p.0 p.1 m in
    ap (λ n. parse_next (parse_loop fuel zap_flag) zap_flag n m)
      (next_property-written p (all_written ps) (ground arith))
    ∙ ap (λ x. elim r.0 [ some e ↦ r | none ↦ x ])
        (parse-written ps zap_flag fuel r.1 (ground arith) (omega (arith, enough)))
