-- ===== src/Pdu/StunLookup.antt =====
-- STUN_LOOKUP: a program asks the tracker for its own address.
use distributed_hash_table.Prelude.{
  ℕ, ◌≡◌, List, ◌∷◌, ◌++◌, Option, none, some, suc, arith, ltb, le→ltb, ◌≤◌, if◌then◌else◌, length,
  Outcome, ok, ◌>>=◌, [], refl,
}
use distributed_hash_table.Pdu.Ids.{stun_lookup_id, stun_lookup_size}
use distributed_hash_table.Pdu.Bytes.{read_be_u8, Parses, read_be_u8_then}

pub record StunLookupPdu : Type 0 where
  pub pdu_type : ℕ

unfoldable pub new : StunLookupPdu
new = record { pdu_type = stun_lookup_id }

unfoldable pub to_bytes : StunLookupPdu → List ℕ
to_bytes pdu = pdu.pdu_type ∷ []

unfoldable pub try_parse : List ℕ → Outcome (Option (StunLookupPdu × ℕ))
try_parse buffer = if ltb (length buffer) stun_lookup_size then ok none else do
  (pdu_type, buffer) ← read_be_u8 buffer
  ok (some (record { pdu_type = pdu_type }, stun_lookup_size))

-- A value that its sender can have made: the tag is the message's own, and the fields fit their widths.
pub record IsWire (p : StunLookupPdu) : Type 0 where
  pub tag : p.pdu_type ≡ stun_lookup_id

pub try_parse-to_bytes :
    (p : StunLookupPdu) (rest : List ℕ)
    → IsWire p
    → try_parse (to_bytes p ++ rest) ≡ ok (some (p, stun_lookup_size))
unfolding try_parse to_bytes read_be_u8
try_parse-to_bytes p rest w = ground arith

pub try_parse_short : (bs : List ℕ) → suc (length bs) ≤ stun_lookup_size → try_parse bs ≡ ok none
unfolding try_parse
try_parse_short bs h = ground arith

pub try_parse_long :
    (bs : List ℕ) → stun_lookup_size ≤ length bs → Parses (try_parse bs) stun_lookup_size
unfolding try_parse
try_parse_long bs h =
    rw (le→ltb (length bs) stun_lookup_size h)
      (read_be_u8_then bs stun_lookup_size _ (omega arith) λ _ b0 e0. (_, refl))
