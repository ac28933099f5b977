-- ===== src/Pdu/ValRemove.antt =====
-- VAL_REMOVE: drop the entries of an identity number.
use distributed_hash_table.Prelude.{
  ℕ, suc, ◌≤◌, ◌≡◌, refl, List, ◌∷◌, ◌++◌, Option, none, some, arith, ltb, le→ltb, if◌then◌else◌,
  length, take, Outcome, ok, ◌>>=◌, length-append, length-map, length-take, ◌%◌,
}
use distributed_hash_table.Pdu.Ids.{val_remove_id, val_remove_size, ssn_length}
use distributed_hash_table.Pdu.Bytes.{
  read_be_u8, read_be_u8-push, Parses, read_be_u8_then, split_at, split_at_then, split_at-append,
}
use distributed_hash_table.Pdu.Text.{
  Text, chars_as_u8, bytes_as_chars, IsLatin, chars_as_u8_latin, take_all,
}

pub record ValRemovePdu : Type 0 where
  pub pdu_type : ℕ
  pub ssn : Text

unfoldable pub new : Text → ValRemovePdu
new ssn = record { pdu_type = val_remove_id; ssn = ssn }

unfoldable pub to_bytes : ValRemovePdu → List ℕ
to_bytes pdu = pdu.pdu_type ∷ chars_as_u8 (take ssn_length pdu.ssn)

-- `buffer[..SSN_LENGTH]` panics where the buffer is too short, as `split_at` does.
unfoldable pub try_parse : List ℕ → Outcome (Option (ValRemovePdu × ℕ))
try_parse buffer = if ltb (length buffer) val_remove_size then ok none else do
  (pdu_type, buffer) ← read_be_u8 buffer
  (ssn, _) ← split_at ssn_length buffer
  ok (some (record { pdu_type = pdu_type; ssn = bytes_as_chars ssn }, val_remove_size))

-- A value that reads back as it was.
pub record IsWire (p : ValRemovePdu) : Type 0 where
  pub tag : p.pdu_type ≡ val_remove_id
  pub ssn_size : length p.ssn ≡ ssn_length
  pub ssn_latin : IsLatin p.ssn

pub try_parse-to_bytes :
    (p : ValRemovePdu) (rest : List ℕ)
    → IsWire p
    → try_parse (to_bytes p ++ rest) ≡ ok (some (p, val_remove_size))
unfolding try_parse to_bytes
try_parse-to_bytes p rest w =
    simp
      (
        take_all p.ssn ssn_length w.ssn_size,
        chars_as_u8_latin p.ssn w.ssn_latin,
        read_be_u8-push,
        split_at-append ssn_length p.ssn rest w.ssn_size,
      )
      (ground (arith, length-append p.ssn rest))

pub try_parse_short : (bs : List ℕ) → suc (length bs) ≤ val_remove_size → try_parse bs ≡ ok none
unfolding try_parse
try_parse_short bs h = ground arith

pub try_parse_long :
    (bs : List ℕ) → val_remove_size ≤ length bs → Parses (try_parse bs) val_remove_size
unfolding try_parse
try_parse_long bs h = rw (le→ltb (length bs) val_remove_size h) (
    read_be_u8_then bs val_remove_size _ (omega arith)
      λ _ b0 e0. split_at_then b0 val_remove_size ssn_length _ (omega arith) λ _ b1 e1. (_, refl))

pub size-length : (p : ValRemovePdu) → IsWire p → val_remove_size ≡ length (to_bytes p)
unfolding to_bytes
size-length p w = omega (
  arith,
  length-map (λ (c : ℕ). c % 256) (take ssn_length p.ssn),
  length-take ssn_length p.ssn,
  w.ssn_size,
)
