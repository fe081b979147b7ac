-- ===== src/Mechanism/Types.antt =====
-- src/mechanism.cpp: the names of the socket types on the wire, and which types connect to each other.
-- The types of the draft interface are left out.
use zmq_cn_comment.Base.{ℕ, ◌≡◌, Bool, true, false, ◌||◌, List, [], ◌∷◌, ◌==◌, if◌then◌else◌, arith}

pub data SocketType : Type 0 where
  zmq_pair zmq_pub zmq_sub zmq_req zmq_rep zmq_dealer zmq_router zmq_pull zmq_push zmq_xpub zmq_xsub
        zmq_stream :
      SocketType

-- PAIR, PUB, SUB, REQ, REP, DEALER, ROUTER, PULL, PUSH, XPUB, XSUB, STREAM
abbrev pub socket_type_string : SocketType → List ℕ
socket_type_string zmq_pair = 80 ∷ 65 ∷ 73 ∷ 82 ∷ []
socket_type_string zmq_pub = 80 ∷ 85 ∷ 66 ∷ []
socket_type_string zmq_sub = 83 ∷ 85 ∷ 66 ∷ []
socket_type_string zmq_req = 82 ∷ 69 ∷ 81 ∷ []
socket_type_string zmq_rep = 82 ∷ 69 ∷ 80 ∷ []
socket_type_string zmq_dealer = 68 ∷ 69 ∷ 65 ∷ 76 ∷ 69 ∷ 82 ∷ []
socket_type_string zmq_router = 82 ∷ 79 ∷ 85 ∷ 84 ∷ 69 ∷ 82 ∷ []
socket_type_string zmq_pull = 80 ∷ 85 ∷ 76 ∷ 76 ∷ []
socket_type_string zmq_push = 80 ∷ 85 ∷ 83 ∷ 72 ∷ []
socket_type_string zmq_xpub = 88 ∷ 80 ∷ 85 ∷ 66 ∷ []
socket_type_string zmq_xsub = 88 ∷ 83 ∷ 85 ∷ 66 ∷ []
socket_type_string zmq_stream = 83 ∷ 84 ∷ 82 ∷ 69 ∷ 65 ∷ 77 ∷ []

-- The same length and the same bytes.
abbrev pub strequals : List ℕ → List ℕ → Bool
strequals [] [] = true
strequals [] (c ∷ cs) = false
strequals (b ∷ bs) [] = false
strequals (b ∷ bs) (c ∷ cs) = if b == c then strequals bs cs else false

abbrev pub is_type : List ℕ → SocketType → Bool
is_type name type = strequals name (socket_type_string type)

-- Whether a socket of the type takes a peer of the type with this name.
pub check_socket_type : SocketType → List ℕ → Bool
check_socket_type zmq_req name = is_type name zmq_rep || is_type name zmq_router
check_socket_type zmq_rep name = is_type name zmq_req || is_type name zmq_dealer
check_socket_type zmq_dealer name =
    is_type name zmq_rep || (is_type name zmq_dealer || is_type name zmq_router)
check_socket_type zmq_router name =
    is_type name zmq_req || (is_type name zmq_dealer || is_type name zmq_router)
check_socket_type zmq_push name = is_type name zmq_pull
check_socket_type zmq_pull name = is_type name zmq_push
check_socket_type zmq_pub name = is_type name zmq_sub || is_type name zmq_xsub
check_socket_type zmq_sub name = is_type name zmq_pub || is_type name zmq_xpub
check_socket_type zmq_xpub name = is_type name zmq_sub || is_type name zmq_xsub
check_socket_type zmq_xsub name = is_type name zmq_pub || is_type name zmq_xpub
check_socket_type zmq_pair name = is_type name zmq_pair
check_socket_type zmq_stream name = false

-- Two sockets take each other, or neither takes the other: what one end accepts, the other does.
pub check_socket_type_sym :
    (a b : SocketType)
    → check_socket_type a (socket_type_string b) ≡ check_socket_type b (socket_type_string a)
unfolding check_socket_type
check_socket_type_sym zmq_pair b = ground arith
check_socket_type_sym zmq_pub b = ground arith
check_socket_type_sym zmq_sub b = ground arith
check_socket_type_sym zmq_req b = ground arith
check_socket_type_sym zmq_rep b = ground arith
check_socket_type_sym zmq_dealer b = ground arith
check_socket_type_sym zmq_router b = ground arith
check_socket_type_sym zmq_pull b = ground arith
check_socket_type_sym zmq_push b = ground arith
check_socket_type_sym zmq_xpub b = ground arith
check_socket_type_sym zmq_xsub b = ground arith
check_socket_type_sym zmq_stream b = ground arith
