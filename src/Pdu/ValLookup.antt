-- ===== src/Pdu/ValLookup.antt =====
-- VAL_LOOKUP: ask for the entry of an identity number; the answer goes to the address inside.
use distributed_hash_table.Prelude.{
  ℕ, suc, ◌≤◌, ◌≡◌, refl, List, ◌∷◌, ◌++◌, Option, none, some, arith, ltb, le→ltb, if◌then◌else◌,
  length, take, Outcome, ok, ◌>>=◌, length-append, append_assoc, length-map, length-take, ◌%◌,
}
use distributed_hash_table.Pdu.Ids.{val_lookup_id, val_lookup_size, ssn_length}
use distributed_hash_table.Pdu.Bytes.{
  IsU16, IsU32, read_be_u8, read_be_u16, read_be_u32, u16_to_be_bytes, u32_to_be_bytes,
  read_be_u8-push, read_be_u16-to_be_bytes, read_be_u32-to_be_bytes, Parses, read_be_u8_then,
  read_be_u16_then, read_be_u32_then, split_at, split_at_then, split_at-append,
}
use distributed_hash_table.Pdu.Text.{
  Text, chars_as_u8, bytes_as_chars, IsLatin, chars_as_u8_latin, take_all,
}

pub record ValLookupPdu : Type 0 where
  pub pdu_type : ℕ
  pub ssn : Text
  pub sender_address : ℕ
  pub sender_port : ℕ

unfoldable pub new : Text → ℕ → ℕ → ValLookupPdu
new ssn sender_address sender_port = record {
  pdu_type = val_lookup_id;
  ssn = ssn;
  sender_address = sender_address;
  sender_port = sender_port;
}

unfoldable pub to_bytes : ValLookupPdu → List ℕ
to_bytes pdu =
    pdu.pdu_type
    ∷ (chars_as_u8 (take ssn_length pdu.ssn)
        ++ (u32_to_be_bytes pdu.sender_address ++ u16_to_be_bytes pdu.sender_port))

unfoldable pub try_parse : List ℕ → Outcome (Option (ValLookupPdu × ℕ))
try_parse buffer = if ltb (length buffer) val_lookup_size then ok none else do
  (pdu_type, buffer) ← read_be_u8 buffer
  (ssn, buffer) ← split_at ssn_length buffer
  (sender_address, buffer) ← read_be_u32 buffer
  (sender_port, buffer) ← read_be_u16 buffer
  ok (
      some (
        record {
          pdu_type = pdu_type;
          ssn = bytes_as_chars ssn;
          sender_address = sender_address;
          sender_port = sender_port;
        },
        val_lookup_size,
      ))

-- A value that reads back as it was.
pub record IsWire (p : ValLookupPdu) : Type 0 where
  pub tag : p.pdu_type ≡ val_lookup_id
  pub ssn_size : length p.ssn ≡ ssn_length
  pub ssn_latin : IsLatin p.ssn
  pub sender_address : IsU32 p.sender_address
  pub sender_port : IsU16 p.sender_port

pub try_parse-to_bytes :
    (p : ValLookupPdu) (rest : List ℕ)
    → IsWire p
    → try_parse (to_bytes p ++ rest) ≡ ok (some (p, val_lookup_size))
unfolding try_parse to_bytes
try_parse-to_bytes p rest w =
    simp
      (
        take_all p.ssn ssn_length w.ssn_size,
        chars_as_u8_latin p.ssn w.ssn_latin,
        append_assoc,
        read_be_u8-push,
        split_at-append ssn_length p.ssn _ w.ssn_size,
        read_be_u32-to_be_bytes p.sender_address _ w.sender_address,
        read_be_u16-to_be_bytes p.sender_port rest w.sender_port,
      )
      (ground (
        arith,
        length-append p.ssn
            (u32_to_be_bytes p.sender_address ++ (u16_to_be_bytes p.sender_port ++ rest)),
      ))

pub try_parse_short : (bs : List ℕ) → suc (length bs) ≤ val_lookup_size → try_parse bs ≡ ok none
unfolding try_parse
try_parse_short bs h = ground arith

pub try_parse_long :
    (bs : List ℕ) → val_lookup_size ≤ length bs → Parses (try_parse bs) val_lookup_size
unfolding try_parse
try_parse_long bs h = rw (le→ltb (length bs) val_lookup_size h) (
    read_be_u8_then bs val_lookup_size _ (omega arith) λ _ b0 e0.
      split_at_then b0 val_lookup_size ssn_length _ (omega arith) λ _ b1 e1.
        read_be_u32_then b1 val_lookup_size _ (omega arith)
          λ _ b2 e2. read_be_u16_then b2 val_lookup_size _ (omega arith) λ _ b3 e3. (_, refl))

pub size-length : (p : ValLookupPdu) → IsWire p → val_lookup_size ≡ length (to_bytes p)
unfolding to_bytes
size-length p w = omega (
  arith,
  length-append (chars_as_u8 (take ssn_length p.ssn))
      (u32_to_be_bytes p.sender_address ++ u16_to_be_bytes p.sender_port),
  length-map (λ (c : ℕ). c % 256) (take ssn_length p.ssn),
  length-take ssn_length p.ssn,
  w.ssn_size,
)
