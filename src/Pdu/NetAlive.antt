-- ===== src/Pdu/NetAlive.antt =====
-- NET_ALIVE: a node tells the tracker that it is there.
use distributed_hash_table.Prelude.{
  ℕ, ◌≡◌, List, ◌∷◌, ◌++◌, Option, none, some, suc, arith, ltb, le→ltb, ◌≤◌, if◌then◌else◌, length,
  Outcome, ok, ◌>>=◌, [], refl,
}
use distributed_hash_table.Pdu.Ids.{net_alive_id, net_alive_size}
use distributed_hash_table.Pdu.Bytes.{read_be_u8, Parses, read_be_u8_then}

pub record NetAlivePdu : Type 0 where
  pub pdu_type : ℕ

unfoldable pub new : NetAlivePdu
new = record { pdu_type = net_alive_id }

unfoldable pub to_bytes : NetAlivePdu → List ℕ
to_bytes pdu = pdu.pdu_type ∷ []

unfoldable pub try_parse : List ℕ → Outcome (Option (NetAlivePdu × ℕ))
try_parse buffer = if ltb (length buffer) net_alive_size then ok none else do
  (pdu_type, buffer) ← read_be_u8 buffer
  ok (some (record { pdu_type = pdu_type }, net_alive_size))

-- A value that its sender can have made: the tag is the message's own, and the fields fit their widths.
pub record IsWire (p : NetAlivePdu) : Type 0 where
  pub tag : p.pdu_type ≡ net_alive_id

pub try_parse-to_bytes :
    (p : NetAlivePdu) (rest : List ℕ)
    → IsWire p
    → try_parse (to_bytes p ++ rest) ≡ ok (some (p, net_alive_size))
unfolding try_parse to_bytes read_be_u8
try_parse-to_bytes p rest w = ground arith

pub try_parse_short : (bs : List ℕ) → suc (length bs) ≤ net_alive_size → try_parse bs ≡ ok none
unfolding try_parse
try_parse_short bs h = ground arith

pub try_parse_long :
    (bs : List ℕ) → net_alive_size ≤ length bs → Parses (try_parse bs) net_alive_size
unfolding try_parse
try_parse_long bs h =
    rw (le→ltb (length bs) net_alive_size h)
      (read_be_u8_then bs net_alive_size _ (omega arith) λ _ b0 e0. (_, refl))
