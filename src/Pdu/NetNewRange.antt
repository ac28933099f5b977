-- ===== src/Pdu/NetNewRange.antt =====
-- NET_NEW_RANGE: a leaving node hands its hash range to a neighbour.
use distributed_hash_table.Prelude.{
  ℕ, ◌≡◌, List, ◌∷◌, ◌++◌, Option, none, some, suc, arith, ltb, le→ltb, ◌≤◌, if◌then◌else◌, length,
  Outcome, ok, ◌>>=◌, [], refl,
}
use distributed_hash_table.Pdu.Ids.{net_new_range_id, net_new_range_size}
use distributed_hash_table.Pdu.Bytes.{IsU8, read_be_u8, Parses, read_be_u8_then}

pub record NetNewRangePdu : Type 0 where
  pub pdu_type : ℕ
  pub range_start : ℕ
  pub range_end : ℕ

unfoldable pub new : ℕ → ℕ → NetNewRangePdu
new range_start range_end = record {
  pdu_type = net_new_range_id;
  range_start = range_start;
  range_end = range_end;
}

unfoldable pub to_bytes : NetNewRangePdu → List ℕ
to_bytes pdu = pdu.pdu_type ∷ pdu.range_start ∷ pdu.range_end ∷ []

unfoldable pub try_parse : List ℕ → Outcome (Option (NetNewRangePdu × ℕ))
try_parse buffer = if ltb (length buffer) net_new_range_size then ok none else do
  (pdu_type, buffer) ← read_be_u8 buffer
  (range_start, buffer) ← read_be_u8 buffer
  (range_end, buffer) ← read_be_u8 buffer
  ok (
      some (
        record { pdu_type = pdu_type; range_start = range_start; range_end = range_end },
        net_new_range_size,
      ))

-- A value that its sender can have made: the tag is the message's own, and the fields fit their widths.
pub record IsWire (p : NetNewRangePdu) : Type 0 where
  pub tag : p.pdu_type ≡ net_new_range_id
  pub range_start : IsU8 p.range_start
  pub range_end : IsU8 p.range_end

pub try_parse-to_bytes :
    (p : NetNewRangePdu) (rest : List ℕ)
    → IsWire p
    → try_parse (to_bytes p ++ rest) ≡ ok (some (p, net_new_range_size))
unfolding try_parse to_bytes read_be_u8
try_parse-to_bytes p rest w = ground arith

pub try_parse_short : (bs : List ℕ) → suc (length bs) ≤ net_new_range_size → try_parse bs ≡ ok none
unfolding try_parse
try_parse_short bs h = ground arith

pub try_parse_long :
    (bs : List ℕ) → net_new_range_size ≤ length bs → Parses (try_parse bs) net_new_range_size
unfolding try_parse
try_parse_long bs h = rw (le→ltb (length bs) net_new_range_size h) (
    read_be_u8_then bs net_new_range_size _ (omega arith) λ _ b0 e0.
      read_be_u8_then b0 net_new_range_size _ (omega arith)
        λ _ b1 e1. read_be_u8_then b1 net_new_range_size _ (omega arith) λ _ b2 e2. (_, refl))
