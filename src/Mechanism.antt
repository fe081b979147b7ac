-- ===== src/Mechanism.antt =====
-- src/mechanism.cpp, `mechanism_t`: the metadata that two peers tell each other in the handshake. A
-- failed assertion is `none`. The lengths of all properties together fit size_t.
pub mod Types
pub mod Metadata
pub mod RoundTrip
pub mod Truncated
mod Tests
use zmq_cn_comment.Base.{
  ℕ, zero, suc, ◌+◌, ◌-◌, ◌%◌, ◌≡◌, Bool, true, false, not, ◌&&◌, ◌||◌, List, [], ◌∷◌, ◌++◌, Option,
  none, some, if◌then◌else◌, ltb, leb, ◌==◌, length, get_or, take, drop,
}
use zmq_cn_comment.Errno.{Errno, eproto, einval}
use zmq_cn_comment.Wire.{put_uint32, get_uint32}
use zmq_cn_comment.Pipe.{◌>>=◌}
use zmq_cn_comment.Mechanism.Types.{
  SocketType, zmq_req, zmq_dealer, zmq_router, socket_type_string, strequals, check_socket_type,
}

-- A name and a value.
abbrev pub Property : Type 0
Property = List ℕ × List ℕ

pub record Options : Type 0 where
  pub type : SocketType
  pub recv_routing_id : Bool
  pub routing_id : List ℕ
  pub app_metadata : List Property

pub record Mechanism : Type 0 where
  pub options : Options
  pub routing_id : List ℕ
  pub zap_properties : List Property
  pub zmtp_properties : List Property

abbrev pub name_len_size : ℕ
name_len_size = 1

abbrev pub value_len_size : ℕ
value_len_size = 4

-- Up to the first null character: c_str () and strlen.
unfoldable pub c_string : List ℕ → List ℕ
c_string [] = []
c_string (c ∷ cs) = if c == 0 then [] else c ∷ c_string cs

abbrev pub property_len : ℕ → ℕ → ℕ
property_len name_len value_len = name_len_size + name_len + value_len_size + value_len

-- The bytes that are written to the front of a buffer.
pub add_property : ℕ → List ℕ → List ℕ → Option (List ℕ)
add_property capacity name value =
    if leb (length name) 255
      && (leb (property_len (length name) (length value)) capacity && leb (length value) 2147483647)
    then some ((length name % 256) ∷ name ++ (put_uint32 (length value) ++ value))
    else none

-- "Socket-Type"
abbrev pub socket_type_name : List ℕ
socket_type_name = 83 ∷ 111 ∷ 99 ∷ 107 ∷ 101 ∷ 116 ∷ 45 ∷ 84 ∷ 121 ∷ 112 ∷ 101 ∷ []

-- "Identity"
abbrev pub identity_name : List ℕ
identity_name = 73 ∷ 100 ∷ 101 ∷ 110 ∷ 116 ∷ 105 ∷ 116 ∷ 121 ∷ []

-- options.type == ZMQ_REQ || options.type == ZMQ_DEALER || options.type == ZMQ_ROUTER
abbrev pub tells_identity : SocketType → Bool
tells_identity zmq_req = true
tells_identity zmq_dealer = true
tells_identity zmq_router = true
tells_identity _ = false

-- The loop over the metadata of the application.
pub add_metadata : ℕ → List Property → Option (List ℕ)
unfolding add_property
add_metadata capacity [] = some []
add_metadata capacity (p ∷ ps) = add_property capacity (c_string p.0) (c_string p.1) >>= λ bs.
    add_metadata (capacity - length bs) ps >>= λ more. some (bs ++ more)

pub add_basic_properties : ℕ → Options → Option (List ℕ)
unfolding add_property add_metadata
add_basic_properties capacity o =
    add_property capacity socket_type_name (socket_type_string o.type) >>= λ type.
    (if tells_identity o.type
      then add_property (capacity - length type) identity_name o.routing_id
      else some [])
    >>= λ identity.
        add_metadata (capacity - length type - length identity) o.app_metadata >>= λ more.
        some (type ++ (identity ++ more))

pub metadata_len : List Property → ℕ
metadata_len [] = 0
metadata_len (p ∷ ps) =
    property_len (length (c_string p.0)) (length (c_string p.1)) + metadata_len ps

pub basic_properties_len : Options → ℕ
unfolding metadata_len
basic_properties_len o =
    property_len (length socket_type_name) (length (socket_type_string o.type))
    + metadata_len o.app_metadata
    + (if tells_identity o.type
        then property_len (length identity_name) (length o.routing_id)
        else 0)

-- std::map keeps the value that a name has.
abbrev pub emplace : List ℕ → List ℕ → List Property → List Property
emplace name value [] = (name, value) ∷ []
emplace name value (p ∷ ps) = if strequals p.0 name then p ∷ ps else p ∷ emplace name value ps

abbrev pub record_property : Bool → List ℕ → List ℕ → Mechanism → Mechanism
record_property zap_flag name value m =
    if zap_flag
    then record m { zap_properties = emplace name value m.zap_properties }
    else record m { zmtp_properties = emplace name value m.zmtp_properties }

-- A property of the peer: the error, if it is refused, and the state after it.
pub take_property : Bool → List ℕ → List ℕ → Mechanism → Option Errno × Mechanism
take_property zap_flag name value m =
    if strequals name identity_name && m.options.recv_routing_id
    then (none, record_property zap_flag name value (record m { routing_id = value }))
    else if strequals name socket_type_name && not (check_socket_type m.options.type value)
    then (some einval, m)
    else (none, record_property zap_flag name value m)

-- What is left decides whether the metadata is complete.
abbrev pub finish : List ℕ → Mechanism → Option Errno × Mechanism
finish bs m = (if ltb 0 (length bs) then some eproto else none, m)

-- The next property of the loop: its name, its value and the bytes after it; or what is left where it
-- breaks off.
pub data Next : Type 0 where
  broken : List ℕ → Next
  whole : List ℕ → List ℕ → List ℕ → Next

pub next_value : List ℕ → ℕ → List ℕ → Next
next_value name value_length bs =
    if ltb (length bs) value_length
    then broken bs
    else whole name (take value_length bs) (drop value_length bs)

pub next_size : List ℕ → List ℕ → Next
unfolding next_value
next_size name bs =
    if ltb (length bs) value_len_size
    then broken bs
    else next_value name (get_uint32 bs) (drop value_len_size bs)

pub next_name : ℕ → List ℕ → Next
unfolding next_size
next_name name_length bs =
    if ltb (length bs) name_length
    then broken bs
    else next_size (take name_length bs) (drop name_length bs)

pub next_property : List ℕ → Next
unfolding next_name
next_property bs =
    if leb (length bs) 1 then broken bs else next_name (get_or bs 0 0) (drop name_len_size bs)

-- What the loop does with the next property, and then with the bytes after it.
pub parse_next :
    (List ℕ → Mechanism → Option Errno × Mechanism)
    → Bool
    → Next
    → Mechanism
    → Option Errno × Mechanism
unfolding take_property
parse_next continue zap_flag (broken rest) m = finish rest m
parse_next continue zap_flag (whole name value rest) m =
    let r = take_property zap_flag name value m in
    elim r.0 [ some e ↦ r | none ↦ continue rest r.1 ]

-- Fuel: one round for each byte, and a property has five at least.
pub parse_loop : ℕ → Bool → List ℕ → Mechanism → Option Errno × Mechanism
unfolding next_property parse_next
parse_loop zero zap_flag bs m = finish bs m
parse_loop (suc fuel) zap_flag bs m =
    parse_next (parse_loop fuel zap_flag) zap_flag (next_property bs) m

pub parse_metadata : Bool → List ℕ → Mechanism → Option Errno × Mechanism
unfolding parse_loop
parse_metadata zap_flag bs m = parse_loop (length bs) zap_flag bs m
