-- ===== src/Node/Values.antt =====
-- The value operations of a node.
use distributed_hash_table.Prelude.{
  List, [], ◌∷◌, ◌++◌, Option, none, some, not, if◌then◌else◌, keep_if,
}
use distributed_hash_table.Pdu.Text.{Text, text_eq}
use distributed_hash_table.Pdu.SocketAddr.{v4}
use distributed_hash_table.Pdu.ValInsert.{ValInsertPdu}
use distributed_hash_table.Pdu.ValLookup.{ValLookupPdu}
use distributed_hash_table.Pdu.ValRemove.{ValRemovePdu}
use distributed_hash_table.Pdu.ValLookupResponse
use distributed_hash_table.Pdu.ValLookupResponse.{ValLookupResponsePdu}
use distributed_hash_table.Pdu.Message.{
  Pdu, val_insert, val_lookup, val_remove, val_lookup_response,
}
use distributed_hash_table.Node.Entry.{Entry, new}
use distributed_hash_table.Node.Exec.{Exec, ◌>>=◌, this, modify, or_fail, udp_send, tcp_send}
use distributed_hash_table.Node.Util.{in_my_range}

-- A node with no successor panics.
unfoldable pub forward : Pdu → Exec (Unit {0})
forward pdu = do n ← this; socket ← or_fail n.successor; tcp_send socket pdu

unfoldable pub handle_val_insert : ValInsertPdu → Exec (Unit {0})
handle_val_insert pdu = do
  n ← this
  if in_my_range n pdu.ssn
      then (modify λ n. record n { values = n.values ++ (new pdu.ssn pdu.name pdu.email ∷ []) })
      else forward (val_insert pdu)

-- The loop with its `break`: the first entry with the number.
abbrev pub find : Text → List Entry → Option Entry
find ssn [] = none
find ssn (e ∷ es) = if text_eq e.ssn ssn then some e else find ssn es

abbrev pub zeros : Text
zeros = b'0' ∷ b'0' ∷ b'0' ∷ b'0' ∷ b'0' ∷ b'0' ∷ b'0' ∷ b'0' ∷ b'0' ∷ b'0' ∷ b'0' ∷ b'0' ∷ []

abbrev pub response : Option Entry → ValLookupResponsePdu
response (some e) = ValLookupResponse.new e.ssn e.name e.email
response none = ValLookupResponse.new zeros [] []

unfoldable pub handle_val_lookup : ValLookupPdu → Exec (Unit {0})
handle_val_lookup pdu = do
  n ← this
  if in_my_range n pdu.ssn
      then udp_send (val_lookup_response (response (find pdu.ssn n.values)))
          (v4 pdu.sender_address pdu.sender_port)
      else forward (val_lookup pdu)

unfoldable pub handle_val_remove : ValRemovePdu → Exec (Unit {0})
handle_val_remove pdu = do
  n ← this
  if in_my_range n pdu.ssn
      then (modify λ n. record n { values = keep_if (λ e. not (text_eq e.ssn pdu.ssn)) n.values })
      else forward (val_remove pdu)
