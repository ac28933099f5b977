-- ===== src/Pdu/NetJoinResponse.antt =====
-- NET_JOIN_RESPONSE: the new node gets its successor and its hash range.
use distributed_hash_table.Prelude.{
  ℕ, ◌≡◌, List, ◌∷◌, ◌++◌, Option, none, some, suc, arith, ltb, le→ltb, ◌≤◌, if◌then◌else◌, length,
  Outcome, ok, ◌>>=◌, [], refl,
}
use distributed_hash_table.Pdu.Ids.{net_join_response_id, net_join_response_size}
use distributed_hash_table.Pdu.Bytes.{
  IsU8, IsU16, IsU32, read_be_u8, read_be_u16, read_be_u32, u16_to_be_bytes, u32_to_be_bytes,
  Parses, read_be_u8_then, read_be_u16_then, read_be_u32_then,
}
use distributed_hash_table.Pdu.SocketAddr.{SocketAddr, v4}

pub record NetJoinResponsePdu : Type 0 where
  pub pdu_type : ℕ
  pub next_address : ℕ
  pub next_port : ℕ
  pub range_start : ℕ
  pub range_end : ℕ

unfoldable pub new : ℕ → ℕ → ℕ → ℕ → NetJoinResponsePdu
new next_address next_port range_start range_end = record {
  pdu_type = net_join_response_id;
  next_address = next_address;
  next_port = next_port;
  range_start = range_start;
  range_end = range_end;
}

unfoldable pub get_next_addr : NetJoinResponsePdu → SocketAddr
get_next_addr pdu = v4 pdu.next_address pdu.next_port

unfoldable pub to_bytes : NetJoinResponsePdu → List ℕ
to_bytes pdu =
    pdu.pdu_type
    ∷ (u32_to_be_bytes pdu.next_address
        ++ (u16_to_be_bytes pdu.next_port ++ (pdu.range_start ∷ pdu.range_end ∷ [])))

unfoldable pub try_parse : List ℕ → Outcome (Option (NetJoinResponsePdu × ℕ))
try_parse buffer = if ltb (length buffer) net_join_response_size then ok none else do
  (pdu_type, buffer) ← read_be_u8 buffer
  (next_address, buffer) ← read_be_u32 buffer
  (next_port, buffer) ← read_be_u16 buffer
  (range_start, buffer) ← read_be_u8 buffer
  (range_end, buffer) ← read_be_u8 buffer
  ok (
      some (
        record {
          pdu_type = pdu_type;
          next_address = next_address;
          next_port = next_port;
          range_start = range_start;
          range_end = range_end;
        },
        net_join_response_size,
      ))

-- A value that its sender can have made: the tag is the message's own, and the fields fit their widths.
pub record IsWire (p : NetJoinResponsePdu) : Type 0 where
  pub tag : p.pdu_type ≡ net_join_response_id
  pub next_address : IsU32 p.next_address
  pub next_port : IsU16 p.next_port
  pub range_start : IsU8 p.range_start
  pub range_end : IsU8 p.range_end

pub try_parse-to_bytes :
    (p : NetJoinResponsePdu) (rest : List ℕ)
    → IsWire p
    → try_parse (to_bytes p ++ rest) ≡ ok (some (p, net_join_response_size))
unfolding try_parse to_bytes read_be_u8 read_be_u16 read_be_u32
try_parse-to_bytes p rest w = ground arith

pub try_parse_short :
    (bs : List ℕ) → suc (length bs) ≤ net_join_response_size → try_parse bs ≡ ok none
unfolding try_parse
try_parse_short bs h = ground arith

pub try_parse_long :
    (bs : List ℕ)
    → net_join_response_size ≤ length bs
    → Parses (try_parse bs) net_join_response_size
unfolding try_parse
try_parse_long bs h = rw (le→ltb (length bs) net_join_response_size h) (
    read_be_u8_then bs net_join_response_size _ (omega arith) λ _ b0 e0.
      read_be_u32_then b0 net_join_response_size _ (omega arith) λ _ b1 e1.
        read_be_u16_then b1 net_join_response_size _ (omega arith) λ _ b2 e2.
          read_be_u8_then b2 net_join_response_size _ (omega arith) λ _ b3 e3.
            read_be_u8_then b3 net_join_response_size _ (omega arith) λ _ b4 e4. (_, refl))
