-- ===== src/Mechanism/RoundTrip.antt =====
-- The basic properties fill their buffer exactly, and the peer reads them.
use zmq_cn_comment.Base.{
  ℕ, ◌-◌, ◌≤◌, ◌≡◌, refl, ap, sym, ◌∙◌, Bool, true, false, ◌&&◌, List, [], ◌∷◌, ◌++◌, append_assoc,
  append-nil, none, some, if◌then◌else◌, leb, length, length-append, arith,
}
use zmq_cn_comment.Pipe.{◌>>=◌}
use zmq_cn_comment.Mechanism.Types.{socket_type_string}
use zmq_cn_comment.Mechanism.{
  Property, Options, Mechanism, property_len, c_string, socket_type_name, identity_name,
  tells_identity, add_property, add_metadata, metadata_len, add_basic_properties,
  basic_properties_len, parse_metadata,
}
use zmq_cn_comment.Mechanism.Metadata.{
  fits, all_fit, written, all_written, take_all, length-written, parse-written,
}

-- The metadata of the application as it is written: up to the first null character.
abbrev pub strings : List Property → List Property
strings [] = []
strings (p ∷ ps) = (c_string p.0, c_string p.1) ∷ strings ps

abbrev pub identity_of : Options → List Property
identity_of o = if tells_identity o.type then (identity_name, o.routing_id) ∷ [] else []

-- The properties that the options tell the peer.
abbrev pub properties : Options → List Property
properties o =
    (socket_type_name, socket_type_string o.type) ∷ (identity_of o ++ strings o.app_metadata)

add_property_lem :
    (capacity : ℕ) (p : Property)
    → fits p ≡ true
    → property_len (length p.0) (length p.1) ≤ capacity
    → add_property capacity p.0 p.1 ≡ some (written p)
unfolding add_property
add_property_lem capacity p h room =
    let fine : leb (length p.0) 255
          && (leb (property_len (length p.0) (length p.1)) capacity && leb (length p.1) 2147483647)
        ≡ true =
      ground arith in
    ap (λ b. if b then some (written p) else none) fine

add_metadata_lem :
    (ps : List Property) (capacity : ℕ)
    → all_fit (strings ps) ≡ true
    → metadata_len ps ≤ capacity
    → add_metadata capacity ps ≡ some (all_written (strings ps))
unfolding add_metadata metadata_len
add_metadata_lem [] capacity h room = refl
add_metadata_lem (p ∷ ps) capacity h room =
    let q : Property = (c_string p.0, c_string p.1) in
    ap (λ o. o >>= λ bs. add_metadata (capacity - length bs) ps >>= λ more. some (bs ++ more))
      (add_property_lem capacity q (ground arith) (omega (arith, room)))
    ∙ ap (λ o. o >>= λ more. some (written q ++ more))
        (add_metadata_lem ps (capacity - length (written q)) (ground arith)
          (omega (arith, room, length-written q)))

length-strings : (ps : List Property) → length (all_written (strings ps)) ≡ metadata_len ps
unfolding metadata_len
length-strings [] = refl
length-strings (p ∷ ps) =
    let q : Property = (c_string p.0, c_string p.1) in
    omega (
      arith,
      length-append (written q) (all_written (strings ps)),
      length-written q,
      length-strings ps,
    )

-- Every property takes a byte at least, so that the fuel of the loop is enough.
enough_fuel : (ps : List Property) → length ps ≤ length (all_written ps)
enough_fuel [] = omega arith
enough_fuel (p ∷ ps) =
    omega (arith, length-append (written p) (all_written ps), length-written p, enough_fuel ps)

parse_all :
    (ps : List Property) (zap_flag : Bool) (m : Mechanism)
    → all_fit ps ≡ true
    → parse_metadata zap_flag (all_written ps) m ≡ take_all zap_flag ps m
unfolding parse_metadata
parse_all ps zap_flag m h = parse-written ps zap_flag (length (all_written ps)) m h (enough_fuel ps)

all_written-append :
    (ps qs : List Property) → all_written (ps ++ qs) ≡ all_written ps ++ all_written qs
all_written-append [] qs = refl
all_written-append (p ∷ ps) qs =
    ap (λ t. written p ++ t) (all_written-append ps qs)
    ∙ sym (append_assoc (written p) (all_written ps) (all_written qs))

all_fit-append : (ps qs : List Property) → all_fit (ps ++ qs) ≡ all_fit ps && all_fit qs
all_fit-append [] qs = refl
all_fit-append (p ∷ ps) qs = ground (arith, all_fit-append ps qs)

identity_lem :
    (tells : Bool) (capacity : ℕ) (p : Property)
    → all_fit (if tells then p ∷ [] else []) ≡ true
    → (if tells then property_len (length p.0) (length p.1) else 0) ≤ capacity
    → (if tells then add_property capacity p.0 p.1 else some [])
      ≡ some (all_written (if tells then p ∷ [] else []))
identity_lem false capacity p h room = refl
identity_lem true capacity p h room =
    add_property_lem capacity p (ground arith) room ∙ ap some (sym (append-nil (written p)))

identity_length :
    (tells : Bool) (p : Property)
    → length (all_written (if tells then p ∷ [] else []))
      ≡ (if tells then property_len (length p.0) (length p.1) else 0)
identity_length false p = refl
identity_length true p = ap length (append-nil (written p)) ∙ length-written p

module _ (o : Options) where
  abbrev first : Property
  first = (socket_type_name, socket_type_string o.type)

  abbrev identity : Property
  identity = (identity_name, o.routing_id)

  add_basic_lem :
      all_fit (properties o) ≡ true
      → add_basic_properties (basic_properties_len o) o ≡ some (all_written (properties o))
  unfolding add_basic_properties basic_properties_len
  add_basic_lem h =
      let capacity = basic_properties_len o in
      let app = o.app_metadata in
      let told = all_written (identity_of o) in
      let both : all_fit (identity_of o) && all_fit (strings app) ≡ true =
        sym (all_fit-append (identity_of o) (strings app)) ∙ ground arith in
      ap
        (λ x. x >>= λ type.
          (if tells_identity o.type
            then add_property (capacity - length type) identity_name o.routing_id
            else some [])
          >>= λ i. add_metadata (capacity - length type - length i) app >>= λ more.
              some (type ++ (i ++ more)))
        (add_property_lem capacity first (ground arith) (omega arith))
      ∙ ap
          (λ x. x >>= λ i.
            add_metadata (capacity - length (written first) - length i) app >>= λ more.
            some (written first ++ (i ++ more)))
          (identity_lem (tells_identity o.type) (capacity - length (written first)) identity
            (ground arith) (omega (arith, length-written first)))
      ∙ ap (λ x. x >>= λ more. some (written first ++ (told ++ more)))
          (add_metadata_lem app (capacity - length (written first) - length told) (ground arith)
            (omega (arith, length-written first, identity_length (tells_identity o.type) identity)))
      ∙ ap (λ x. some (written first ++ x)) (sym (all_written-append (identity_of o) (strings app)))

  length-basic : length (all_written (properties o)) ≡ basic_properties_len o
  unfolding basic_properties_len
  length-basic = omega (
    arith,
    length-append (written first) (all_written (identity_of o ++ strings o.app_metadata)),
    ap length (all_written-append (identity_of o) (strings o.app_metadata)),
    length-append (all_written (identity_of o)) (all_written (strings o.app_metadata)),
    length-written first,
    identity_length (tells_identity o.type) identity,
    length-strings o.app_metadata,
  )

-- The options are told completely: add_basic_properties fits the buffer of basic_properties_len bytes
-- and fills it, and parse_metadata of the peer takes the type of the socket, the routing id of a REQ,
-- DEALER or ROUTER socket and the metadata of the application in this order, up to the first property
-- that it refuses. The names have 255 bytes at most, and the values 2 ^ 31 - 1.
pub parse_metadata-add_basic_properties :
    (o : Options) (zap_flag : Bool) (m : Mechanism)
    → all_fit (properties o) ≡ true
    → (bs : List ℕ) × (add_basic_properties (basic_properties_len o) o ≡ some bs)
      × (length bs ≡ basic_properties_len o)
      × (parse_metadata zap_flag bs m ≡ take_all zap_flag (properties o) m)
parse_metadata-add_basic_properties o zap_flag m h = (
  all_written (properties o),
  add_basic_lem o h,
  length-basic o,
  parse_all (properties o) zap_flag m h,
)
