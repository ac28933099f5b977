-- ===== src/Pdu/StunResponse.antt =====
-- STUN_RESPONSE: the tracker answers with the address that it saw.
use distributed_hash_table.Prelude.{
  ℕ, ◌≡◌, List, ◌∷◌, ◌++◌, Option, none, some, suc, arith, ltb, le→ltb, ◌≤◌, if◌then◌else◌, length,
  Outcome, ok, ◌>>=◌, refl,
}
use distributed_hash_table.Pdu.Ids.{stun_response_id, stun_response_size}
use distributed_hash_table.Pdu.Bytes.{
  IsU32, read_be_u8, read_be_u32, u32_to_be_bytes, Parses, read_be_u8_then, read_be_u32_then,
}

pub record StunResponsePdu : Type 0 where
  pub pdu_type : ℕ
  pub address : ℕ

unfoldable pub new : ℕ → StunResponsePdu
new address = record { pdu_type = stun_response_id; address = address }

unfoldable pub to_bytes : StunResponsePdu → List ℕ
to_bytes pdu = pdu.pdu_type ∷ (u32_to_be_bytes pdu.address)

unfoldable pub try_parse : List ℕ → Outcome (Option (StunResponsePdu × ℕ))
try_parse buffer = if ltb (length buffer) stun_response_size then ok none else do
  (pdu_type, buffer) ← read_be_u8 buffer
  (address, buffer) ← read_be_u32 buffer
  ok (some (record { pdu_type = pdu_type; address = address }, stun_response_size))

-- A value that its sender can have made: the tag is the message's own, and the fields fit their widths.
pub record IsWire (p : StunResponsePdu) : Type 0 where
  pub tag : p.pdu_type ≡ stun_response_id
  pub address : IsU32 p.address

pub try_parse-to_bytes :
    (p : StunResponsePdu) (rest : List ℕ)
    → IsWire p
    → try_parse (to_bytes p ++ rest) ≡ ok (some (p, stun_response_size))
unfolding try_parse to_bytes read_be_u8 read_be_u32
try_parse-to_bytes p rest w = ground arith

pub try_parse_short : (bs : List ℕ) → suc (length bs) ≤ stun_response_size → try_parse bs ≡ ok none
unfolding try_parse
try_parse_short bs h = ground arith

pub try_parse_long :
    (bs : List ℕ) → stun_response_size ≤ length bs → Parses (try_parse bs) stun_response_size
unfolding try_parse
try_parse_long bs h = rw (le→ltb (length bs) stun_response_size h) (
    read_be_u8_then bs stun_response_size _ (omega arith)
      λ _ b0 e0. read_be_u32_then b0 stun_response_size _ (omega arith) λ _ b1 e1. (_, refl))
