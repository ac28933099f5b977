-- ===== src/Pdu/NetJoin.antt =====
-- NET_JOIN: a node asks for a place in the ring.
use distributed_hash_table.Prelude.{
  ℕ, ◌≡◌, List, ◌∷◌, ◌++◌, Option, none, some, suc, arith, ltb, le→ltb, ◌≤◌, if◌then◌else◌, length,
  Outcome, ok, ◌>>=◌, refl,
}
use distributed_hash_table.Pdu.Ids.{net_join_id, net_join_size}
use distributed_hash_table.Pdu.Bytes.{
  IsU8, IsU16, IsU32, read_be_u8, read_be_u16, read_be_u32, u16_to_be_bytes, u32_to_be_bytes,
  Parses, read_be_u8_then, read_be_u16_then, read_be_u32_then,
}
use distributed_hash_table.Pdu.SocketAddr.{SocketAddr, v4}

pub record NetJoinPdu : Type 0 where
  pub pdu_type : ℕ
  pub src_address : ℕ
  pub src_port : ℕ
  pub max_span : ℕ
  pub max_address : ℕ
  pub max_port : ℕ

unfoldable pub new : ℕ → ℕ → ℕ → ℕ → ℕ → NetJoinPdu
new src_address src_port max_span max_address max_port = record {
  pdu_type = net_join_id;
  src_address = src_address;
  src_port = src_port;
  max_span = max_span;
  max_address = max_address;
  max_port = max_port;
}

unfoldable pub get_max_socket_addr : NetJoinPdu → SocketAddr
get_max_socket_addr pdu = v4 pdu.max_address pdu.max_port

unfoldable pub get_src_socket_addr : NetJoinPdu → SocketAddr
get_src_socket_addr pdu = v4 pdu.src_address pdu.src_port

unfoldable pub to_bytes : NetJoinPdu → List ℕ
to_bytes pdu =
    pdu.pdu_type
    ∷ (u32_to_be_bytes pdu.src_address
        ++ (u16_to_be_bytes pdu.src_port
            ++ (pdu.max_span
                ∷ (u32_to_be_bytes pdu.max_address ++ (u16_to_be_bytes pdu.max_port)))))

unfoldable pub try_parse : List ℕ → Outcome (Option (NetJoinPdu × ℕ))
try_parse buffer = if ltb (length buffer) net_join_size then ok none else do
  (pdu_type, buffer) ← read_be_u8 buffer
  (src_address, buffer) ← read_be_u32 buffer
  (src_port, buffer) ← read_be_u16 buffer
  (max_span, buffer) ← read_be_u8 buffer
  (max_address, buffer) ← read_be_u32 buffer
  (max_port, buffer) ← read_be_u16 buffer
  ok (
      some (
        record {
          pdu_type = pdu_type;
          src_address = src_address;
          src_port = src_port;
          max_span = max_span;
          max_address = max_address;
          max_port = max_port;
        },
        net_join_size,
      ))

-- A value that its sender can have made: the tag is the message's own, and the fields fit their widths.
pub record IsWire (p : NetJoinPdu) : Type 0 where
  pub tag : p.pdu_type ≡ net_join_id
  pub src_address : IsU32 p.src_address
  pub src_port : IsU16 p.src_port
  pub max_span : IsU8 p.max_span
  pub max_address : IsU32 p.max_address
  pub max_port : IsU16 p.max_port

pub try_parse-to_bytes :
    (p : NetJoinPdu) (rest : List ℕ)
    → IsWire p
    → try_parse (to_bytes p ++ rest) ≡ ok (some (p, net_join_size))
unfolding try_parse to_bytes read_be_u8 read_be_u16 read_be_u32
try_parse-to_bytes p rest w = ground arith

pub try_parse_short : (bs : List ℕ) → suc (length bs) ≤ net_join_size → try_parse bs ≡ ok none
unfolding try_parse
try_parse_short bs h = ground arith

pub try_parse_long : (bs : List ℕ) → net_join_size ≤ length bs → Parses (try_parse bs) net_join_size
unfolding try_parse
try_parse_long bs h = rw (le→ltb (length bs) net_join_size h) (
    read_be_u8_then bs net_join_size _ (omega arith) λ _ b0 e0.
      read_be_u32_then b0 net_join_size _ (omega arith) λ _ b1 e1.
        read_be_u16_then b1 net_join_size _ (omega arith) λ _ b2 e2.
          read_be_u8_then b2 net_join_size _ (omega arith) λ _ b3 e3.
            read_be_u32_then b3 net_join_size _ (omega arith)
              λ _ b4 e4. read_be_u16_then b4 net_join_size _ (omega arith) λ _ b5 e5. (_, refl))
