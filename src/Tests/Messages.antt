-- ===== src/Tests/Messages.antt =====
-- Messages on the wire.
use distributed_hash_table.Prelude.{
  ℕ, ◌%◌, ◌≡◌, ◌↔◌, ◌⊎◌, inl, inr, refl, List, [], ◌∷◌, ◌++◌, some, false, ok, panic, arith,
}
use distributed_hash_table.Pdu.Ids.{val_insert_id, val_lookup_response_id}
use distributed_hash_table.Pdu.ValInsert
use distributed_hash_table.Pdu.ValInsert.{ValInsertPdu}
use distributed_hash_table.Pdu.Message.{val_insert, to_bytes}
use distributed_hash_table.Socket.Parse.{parse_pdu}
use distributed_hash_table.Socket.Parse.RoundTrip.{parse_pdu-to_bytes}
use distributed_hash_table.Socket.Parse.Panics.{is_known, IsSplit, parse_pdu_panics}
use distributed_hash_table.Socket.Parse.Ends.{Settles, parse_pdu-Settles}
use distributed_hash_table.Node.Entry.{hash_ssn, plain_hash, hash_ssn-plain_hash}
use distributed_hash_table.Tests.Samples.{number, name, email}

abbrev insertion : ValInsertPdu
insertion = ValInsert.new number name email

insertion-IsWire : ValInsert.IsWire insertion
insertion-IsWire =
    ValInsert.new-IsWire number name email (ground arith) refl (ground arith) (omega arith)
      (ground arith) (omega arith)

hash_of_number : hash_ssn number ≡ 26
unfolding hash_ssn
hash_of_number = refl

parse_pdu-to_bytes_example :
    parse_pdu (to_bytes (val_insert insertion) ++ 7 ∷ []) ≡ ok (some (val_insert insertion, 21))
unfolding ValInsert.new
parse_pdu-to_bytes_example = parse_pdu-to_bytes (val_insert insertion) (7 ∷ []) insertion-IsWire

-- A VAL_INSERT that is cut behind its name of one byte.
abbrev cut : List ℕ
cut = 1 ∷ 1 ∷ 1 ∷ 1 ∷ 1 ∷ 1 ∷ 1 ∷ 1 ∷ 1 ∷ 1 ∷ 1 ∷ 1 ∷ 1 ∷ b'A' ∷ []

parse_pdu_panics_example : (parse_pdu (val_insert_id ∷ cut) ≡ panic) ↔ (
    (is_known val_insert_id ≡ false)
    ⊎ (((val_insert_id ≡ val_insert_id) ⊎ (val_insert_id ≡ val_lookup_response_id))
        × IsSplit (val_insert_id ∷ cut)))
parse_pdu_panics_example = parse_pdu_panics val_insert_id cut

cut_panics : parse_pdu (val_insert_id ∷ cut) ≡ panic
cut_panics = (parse_pdu_panics val_insert_id cut).1 (inr (inl refl, (omega arith, refl)))

parse_pdu-Settles_example : Settles (parse_pdu (val_insert_id ∷ cut))
parse_pdu-Settles_example = parse_pdu-Settles (val_insert_id ∷ cut)

hash_ssn-plain_hash_example : hash_ssn number ≡ plain_hash 5381 number % 256
hash_ssn-plain_hash_example = hash_ssn-plain_hash number
