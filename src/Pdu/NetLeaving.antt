-- ===== src/Pdu/NetLeaving.antt =====
-- NET_LEAVING: the predecessor of a leaving node gets its new successor.
use distributed_hash_table.Prelude.{
  ℕ, ◌≡◌, List, ◌∷◌, ◌++◌, Option, none, some, suc, arith, ltb, le→ltb, ◌≤◌, if◌then◌else◌, length,
  Outcome, ok, ◌>>=◌, refl,
}
use distributed_hash_table.Pdu.Ids.{net_leaving_id, net_leaving_size}
use distributed_hash_table.Pdu.Bytes.{
  IsU16, IsU32, read_be_u8, read_be_u16, read_be_u32, u16_to_be_bytes, u32_to_be_bytes, Parses,
  read_be_u8_then, read_be_u16_then, read_be_u32_then,
}
use distributed_hash_table.Pdu.SocketAddr.{SocketAddr, v4}

pub record NetLeavingPdu : Type 0 where
  pub pdu_type : ℕ
  pub new_address : ℕ
  pub new_port : ℕ

unfoldable pub new : ℕ → ℕ → NetLeavingPdu
new new_address new_port = record {
  pdu_type = net_leaving_id;
  new_address = new_address;
  new_port = new_port;
}

unfoldable pub get_new_addr : NetLeavingPdu → SocketAddr
get_new_addr pdu = v4 pdu.new_address pdu.new_port

unfoldable pub to_bytes : NetLeavingPdu → List ℕ
to_bytes pdu = pdu.pdu_type ∷ (u32_to_be_bytes pdu.new_address ++ (u16_to_be_bytes pdu.new_port))

unfoldable pub try_parse : List ℕ → Outcome (Option (NetLeavingPdu × ℕ))
try_parse buffer = if ltb (length buffer) net_leaving_size then ok none else do
  (pdu_type, buffer) ← read_be_u8 buffer
  (new_address, buffer) ← read_be_u32 buffer
  (new_port, buffer) ← read_be_u16 buffer
  ok (
      some (
        record { pdu_type = pdu_type; new_address = new_address; new_port = new_port },
        net_leaving_size,
      ))

-- A value that its sender can have made: the tag is the message's own, and the fields fit their widths.
pub record IsWire (p : NetLeavingPdu) : Type 0 where
  pub tag : p.pdu_type ≡ net_leaving_id
  pub new_address : IsU32 p.new_address
  pub new_port : IsU16 p.new_port

pub try_parse-to_bytes :
    (p : NetLeavingPdu) (rest : List ℕ)
    → IsWire p
    → try_parse (to_bytes p ++ rest) ≡ ok (some (p, net_leaving_size))
unfolding try_parse to_bytes read_be_u8 read_be_u16 read_be_u32
try_parse-to_bytes p rest w = ground arith

pub try_parse_short : (bs : List ℕ) → suc (length bs) ≤ net_leaving_size → try_parse bs ≡ ok none
unfolding try_parse
try_parse_short bs h = ground arith

pub try_parse_long :
    (bs : List ℕ) → net_leaving_size ≤ length bs → Parses (try_parse bs) net_leaving_size
unfolding try_parse
try_parse_long bs h = rw (le→ltb (length bs) net_leaving_size h) (
    read_be_u8_then bs net_leaving_size _ (omega arith) λ _ b0 e0.
      read_be_u32_then b0 net_leaving_size _ (omega arith)
        λ _ b1 e1. read_be_u16_then b1 net_leaving_size _ (omega arith) λ _ b2 e2. (_, refl))
