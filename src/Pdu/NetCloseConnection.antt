-- ===== src/Pdu/NetCloseConnection.antt =====
-- NET_CLOSE_CONNECTION: a node gives up its connection to its successor.
use distributed_hash_table.Prelude.{
  ℕ, ◌≡◌, List, ◌∷◌, ◌++◌, Option, none, some, suc, arith, ltb, le→ltb, ◌≤◌, if◌then◌else◌, length,
  Outcome, ok, ◌>>=◌, [], refl,
}
use distributed_hash_table.Pdu.Ids.{net_close_connection_id, net_close_connection_size}
use distributed_hash_table.Pdu.Bytes.{read_be_u8, Parses, read_be_u8_then}

pub record NetCloseConnectionPdu : Type 0 where
  pub pdu_type : ℕ

unfoldable pub new : NetCloseConnectionPdu
new = record { pdu_type = net_close_connection_id }

unfoldable pub to_bytes : NetCloseConnectionPdu → List ℕ
to_bytes pdu = pdu.pdu_type ∷ []

unfoldable pub try_parse : List ℕ → Outcome (Option (NetCloseConnectionPdu × ℕ))
try_parse buffer = if ltb (length buffer) net_close_connection_size then ok none else do
  (pdu_type, buffer) ← read_be_u8 buffer
  ok (some (record { pdu_type = pdu_type }, net_close_connection_size))

-- A value that its sender can have made: the tag is the message's own, and the fields fit their widths.
pub record IsWire (p : NetCloseConnectionPdu) : Type 0 where
  pub tag : p.pdu_type ≡ net_close_connection_id

pub try_parse-to_bytes :
    (p : NetCloseConnectionPdu) (rest : List ℕ)
    → IsWire p
    → try_parse (to_bytes p ++ rest) ≡ ok (some (p, net_close_connection_size))
unfolding try_parse to_bytes read_be_u8
try_parse-to_bytes p rest w = ground arith

pub try_parse_short :
    (bs : List ℕ) → suc (length bs) ≤ net_close_connection_size → try_parse bs ≡ ok none
unfolding try_parse
try_parse_short bs h = ground arith

pub try_parse_long :
    (bs : List ℕ)
    → net_close_connection_size ≤ length bs
    → Parses (try_parse bs) net_close_connection_size
unfolding try_parse
try_parse_long bs h =
    rw (le→ltb (length bs) net_close_connection_size h)
      (read_be_u8_then bs net_close_connection_size _ (omega arith) λ _ b0 e0. (_, refl))
