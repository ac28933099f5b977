-- ===== src/Pdu/NetGetNodeResponse.antt =====
-- NET_GET_NODE_RESPONSE: the tracker names a node, or 0.0.0.0:0 where it knows none.
use distributed_hash_table.Prelude.{
  ℕ, ◌≡◌, List, ◌∷◌, ◌++◌, Option, none, some, suc, arith, ltb, le→ltb, ◌≤◌, if◌then◌else◌, length,
  Outcome, ok, ◌>>=◌, refl,
}
use distributed_hash_table.Pdu.Ids.{net_get_node_response_id, net_get_node_response_size}
use distributed_hash_table.Pdu.Bytes.{
  IsU16, IsU32, read_be_u8, read_be_u16, read_be_u32, u16_to_be_bytes, u32_to_be_bytes, Parses,
  read_be_u8_then, read_be_u16_then, read_be_u32_then,
}
use distributed_hash_table.Pdu.SocketAddr.{SocketAddr, v4}

pub record NetGetNodeResponsePdu : Type 0 where
  pub pdu_type : ℕ
  pub address : ℕ
  pub port : ℕ

unfoldable pub new : ℕ → ℕ → NetGetNodeResponsePdu
new address port = record { pdu_type = net_get_node_response_id; address = address; port = port }

unfoldable pub get_addr : NetGetNodeResponsePdu → SocketAddr
get_addr pdu = v4 pdu.address pdu.port

unfoldable pub to_bytes : NetGetNodeResponsePdu → List ℕ
to_bytes pdu = pdu.pdu_type ∷ (u32_to_be_bytes pdu.address ++ (u16_to_be_bytes pdu.port))

unfoldable pub try_parse : List ℕ → Outcome (Option (NetGetNodeResponsePdu × ℕ))
try_parse buffer = if ltb (length buffer) net_get_node_response_size then ok none else do
  (pdu_type, buffer) ← read_be_u8 buffer
  (address, buffer) ← read_be_u32 buffer
  (port, buffer) ← read_be_u16 buffer
  ok (
      some (
        record { pdu_type = pdu_type; address = address; port = port },
        net_get_node_response_size,
      ))

-- A value that its sender can have made: the tag is the message's own, and the fields fit their widths.
pub record IsWire (p : NetGetNodeResponsePdu) : Type 0 where
  pub tag : p.pdu_type ≡ net_get_node_response_id
  pub address : IsU32 p.address
  pub port : IsU16 p.port

pub try_parse-to_bytes :
    (p : NetGetNodeResponsePdu) (rest : List ℕ)
    → IsWire p
    → try_parse (to_bytes p ++ rest) ≡ ok (some (p, net_get_node_response_size))
unfolding try_parse to_bytes read_be_u8 read_be_u16 read_be_u32
try_parse-to_bytes p rest w = ground arith

pub try_parse_short :
    (bs : List ℕ) → suc (length bs) ≤ net_get_node_response_size → try_parse bs ≡ ok none
unfolding try_parse
try_parse_short bs h = ground arith

pub try_parse_long :
    (bs : List ℕ)
    → net_get_node_response_size ≤ length bs
    → Parses (try_parse bs) net_get_node_response_size
unfolding try_parse
try_parse_long bs h = rw (le→ltb (length bs) net_get_node_response_size h) (
    read_be_u8_then bs net_get_node_response_size _ (omega arith) λ _ b0 e0.
      read_be_u32_then b0 net_get_node_response_size _ (omega arith) λ _ b1 e1.
        read_be_u16_then b1 net_get_node_response_size _ (omega arith) λ _ b2 e2. (_, refl))
