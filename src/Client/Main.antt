-- ===== src/Client/Main.antt =====
-- `main` of the client.
use distributed_hash_table.Prelude.{
  ℕ, zero, suc, List, [], ◌∷◌, ◌++◌, Option, none, some, Bool, Outcome, ok, panic, stuck, ◌>>=◌,
  if◌then◌else◌,
}
use distributed_hash_table.Pdu.Text.{Text, text_eq}
use distributed_hash_table.Pdu.SocketAddr.{SocketAddr}
use distributed_hash_table.Pdu.ValInsert
use distributed_hash_table.Pdu.ValRemove
use distributed_hash_table.Pdu.ValLookupResponse.{ValLookupResponsePdu}
use distributed_hash_table.Pdu.Message.{val_insert, val_remove}
use distributed_hash_table.Client.{
  Client, Person, Ended, done, io_error, send, get_my_address, get_node, lookup, send_csv,
}
use distributed_hash_table.Client.Terminal.{trim, read_line, ask_for}

pub record Opt : Type 0 where
  pub tracker : SocketAddr
  pub node : Option SocketAddr
  pub csv : Option Text
  pub delay : ℕ

abbrev pub insert_word : Text
insert_word = b'i' ∷ b'n' ∷ b's' ∷ b'e' ∷ b'r' ∷ b't' ∷ []

abbrev pub remove_word : Text
remove_word = b'r' ∷ b'e' ∷ b'm' ∷ b'o' ∷ b'v' ∷ b'e' ∷ []

abbrev pub lookup_word : Text
lookup_word = b'l' ∷ b'o' ∷ b'o' ∷ b'k' ∷ b'u' ∷ b'p' ∷ []

abbrev pub exit_word : Text
exit_word = b'e' ∷ b'x' ∷ b'i' ∷ b't' ∷ []

abbrev show : ValLookupResponsePdu × Client → Outcome Client
show (p, c) = ok (record c { printed = c.printed ++ (p.ssn, p.name, p.email) ∷ [] })

-- `reachable` tells where a datagram can be sent; `my_port` is the port of the client's socket.
module _ (reachable : SocketAddr → Bool) (my_address my_port : ℕ) (node : SocketAddr) where
  abbrev pub insert_command : Client → Outcome Client
  insert_command c = do
    (ssn, c1) ← ask_for c
    (name, c2) ← ask_for c1
    (email, c3) ← ask_for c2
    send reachable (val_insert (ValInsert.new ssn name email)) node c3

  abbrev pub remove_command : Client → Outcome Client
  remove_command c = do
    (ssn, c1) ← ask_for c
    send reachable (val_remove (ValRemove.new ssn)) node c1

  abbrev pub lookup_command : Client → Outcome Client
  lookup_command c = do
    (ssn, c1) ← ask_for c
    r ← lookup reachable ssn my_address my_port node c1
    show r

  -- One word; `again` is the rest of the loop.
  abbrev pub run_command :
      (Client → Outcome (Ended × Client)) → Text → Client → Outcome (Ended × Client)
  run_command again word c =
      if text_eq word insert_word
      then insert_command c >>= again
      else if text_eq word remove_word
      then remove_command c >>= again
      else if text_eq word lookup_word
      then lookup_command c >>= again
      else if text_eq word exit_word
      then ok (done, c)
      else again c

  abbrev run_line :
      (Client → Outcome (Ended × Client)) → Option Text × Client → Outcome (Ended × Client)
  run_line again (none, c) = ok (io_error, c)
  run_line again (some line, c) = run_command again (trim line) c

  -- The loop, with a bound on its rounds.
  unfoldable pub main_loop : ℕ → Client → Outcome (Ended × Client)
  main_loop zero c = stuck
  main_loop (suc rounds) c = run_line (main_loop rounds) (read_line c)

-- `open_csv` is what the reader makes of a file: none, where it cannot be opened, or its rows.
module _ (reachable : SocketAddr → Bool) (open_csv : Text → Option (List (Option Person))) where
  abbrev insert_rows :
      SocketAddr → Option (List (Option Person)) → Client → Outcome (Ended × Client)
  insert_rows node none c = panic
  insert_rows node (some rows) c = send_csv reachable rows node c

  abbrev insert_csv : Opt → SocketAddr → Client → Outcome (Ended × Client)
  insert_csv opt node c = elim opt.csv [
    | none ↦ ok (done, c)
    | some file ↦ insert_rows node (open_csv file) c
  ]

  abbrev choose_node : Opt → Client → Outcome (Option SocketAddr × Client)
  choose_node opt c = elim opt.node [
    | some n ↦ ok (some n, c)
    | none ↦ get_node reachable opt.tracker c
  ]

  abbrev converse : ℕ → ℕ → ℕ → SocketAddr → Ended × Client → Outcome (Ended × Client)
  converse rounds my_address my_port node (io_error, c) = ok (io_error, c)
  converse rounds my_address my_port node (done, c) =
      main_loop reachable my_address my_port node rounds c

  abbrev with_node : ℕ → ℕ → ℕ → Opt → Option SocketAddr × Client → Outcome (Ended × Client)
  with_node rounds my_address my_port opt (none, c) = ok (done, c)
  with_node rounds my_address my_port opt (some node, c) =
      insert_csv opt node c >>= converse rounds my_address my_port node

  unfoldable pub main : ℕ → ℕ → Opt → Client → Outcome (Ended × Client)
  main rounds my_port opt c = do
    (my_address, c1) ← get_my_address reachable opt.tracker c
    found ← choose_node opt c1
    with_node rounds my_address my_port opt found
