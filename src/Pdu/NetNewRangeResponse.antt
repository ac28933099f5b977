-- ===== src/Pdu/NetNewRangeResponse.antt =====
-- NET_NEW_RANGE_RESPONSE: the neighbour took the range.
use distributed_hash_table.Prelude.{
  ℕ, ◌≡◌, List, ◌∷◌, ◌++◌, Option, none, some, suc, arith, ltb, le→ltb, ◌≤◌, if◌then◌else◌, length,
  Outcome, ok, ◌>>=◌, [], refl,
}
use distributed_hash_table.Pdu.Ids.{net_new_range_response_id, net_new_range_response_size}
use distributed_hash_table.Pdu.Bytes.{read_be_u8, Parses, read_be_u8_then}

pub record NetNewRangeResponsePdu : Type 0 where
  pub pdu_type : ℕ

unfoldable pub new : NetNewRangeResponsePdu
new = record { pdu_type = net_new_range_response_id }

unfoldable pub to_bytes : NetNewRangeResponsePdu → List ℕ
to_bytes pdu = pdu.pdu_type ∷ []

unfoldable pub try_parse : List ℕ → Outcome (Option (NetNewRangeResponsePdu × ℕ))
try_parse buffer = if ltb (length buffer) net_new_range_response_size then ok none else do
  (pdu_type, buffer) ← read_be_u8 buffer
  ok (some (record { pdu_type = pdu_type }, net_new_range_response_size))

-- A value that its sender can have made: the tag is the message's own, and the fields fit their widths.
pub record IsWire (p : NetNewRangeResponsePdu) : Type 0 where
  pub tag : p.pdu_type ≡ net_new_range_response_id

pub try_parse-to_bytes :
    (p : NetNewRangeResponsePdu) (rest : List ℕ)
    → IsWire p
    → try_parse (to_bytes p ++ rest) ≡ ok (some (p, net_new_range_response_size))
unfolding try_parse to_bytes read_be_u8
try_parse-to_bytes p rest w = ground arith

pub try_parse_short :
    (bs : List ℕ) → suc (length bs) ≤ net_new_range_response_size → try_parse bs ≡ ok none
unfolding try_parse
try_parse_short bs h = ground arith

pub try_parse_long :
    (bs : List ℕ)
    → net_new_range_response_size ≤ length bs
    → Parses (try_parse bs) net_new_range_response_size
unfolding try_parse
try_parse_long bs h =
    rw (le→ltb (length bs) net_new_range_response_size h)
      (read_be_u8_then bs net_new_range_response_size _ (omega arith) λ _ b0 e0. (_, refl))
