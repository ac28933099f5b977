-- ===== src/Node/Util.antt =====
-- The helpers of `Node`. A `u8` wraps: README.md builds with `--release`, which checks no overflow.
use distributed_hash_table.Prelude.{
  ℕ, ◌+◌, ◌-◌, ◌/◌, ◌%◌, ◌^◌, List, [], ◌∷◌, Option, none, some, Bool, ◌&&◌, ◌||◌, ltb, leb,
  if◌then◌else◌, keep_if,
}
use distributed_hash_table.Pdu.Text.{Text}
use distributed_hash_table.Pdu.SocketAddr.{SocketAddr, v4, v6}
use distributed_hash_table.Pdu.NetAlive
use distributed_hash_table.Pdu.ValInsert
use distributed_hash_table.Pdu.Message.{net_alive, val_insert}
use distributed_hash_table.Node.Entry.{Entry, hash, hash_ssn}
use distributed_hash_table.Node.Types.{Node, Stream}
use distributed_hash_table.Node.Exec.{
  Exec, pure, ◌>>=◌, ◌>>◌, this, world, modify, or_fail, udp_send, tcp_send,
}

abbrev pub sub_u8 : ℕ → ℕ → ℕ
sub_u8 a b = (a + 256 - b) % 256

abbrev pub add_u8 : ℕ → ℕ → ℕ
add_u8 a b = (a + b) % 256

-- The lower half stays, the upper half is the result.
unfoldable pub halves : ℕ × ℕ → (ℕ × ℕ) × (ℕ × ℕ)
halves (min, max) =
    let maxp = add_u8 (sub_u8 max min / 2) min in ((min, maxp), (add_u8 maxp 1, max))

unfoldable pub split_range : Exec (ℕ × ℕ)
split_range = do
  n ← this
  modify λ n. record n { hash_range = (halves n.hash_range).0 }
  pure (halves n.hash_range).1

-- `SocketAddr::V4(a)`, as its address and port.
abbrev pub as_v4 : SocketAddr → Option (ℕ × ℕ)
as_v4 (v4 ip port) = some (ip, port)
as_v4 (v6 ip port) = none

unfoldable pub get_listen_addr : Exec (ℕ × ℕ)
get_listen_addr = do n ← this; or_fail (as_v4 n.listen_socket)

unfoldable pub get_successor_addr : Exec (ℕ × ℕ)
get_successor_addr = do n ← this; s ← or_fail n.successor; or_fail (as_v4 s.peer_addr)

unfoldable pub get_predecessor_addr : Exec (ℕ × ℕ)
get_predecessor_addr = do n ← this; s ← or_fail n.predecessor; or_fail (as_v4 s.peer_addr)

-- The tests of `transfer`: the entries that go, and those that stay.
abbrev pub moves : ℕ → ℕ → Entry → Bool
moves range_start range_end e = leb range_start (hash e) && leb (hash e) range_end

abbrev pub stays : ℕ → ℕ → Entry → Bool
stays range_start range_end e = ltb (hash e) range_start || ltb range_end (hash e)

unfoldable pub send_entries : Stream → List Entry → Exec (Unit {0})
send_entries socket [] = pure tt
send_entries socket (e ∷ es) = do
  tcp_send socket (val_insert (ValInsert.new e.ssn e.name e.email))
  send_entries socket es

-- `successor_wrapper.send` uses nothing of the wrapper, so it serves both sockets.
unfoldable pub transfer : Bool → ℕ → ℕ → Exec (Unit {0})
transfer to_successor range_start range_end = do
  n ← this
  socket ← or_fail (if to_successor then n.successor else n.predecessor)
  send_entries socket (keep_if (moves range_start range_end) n.values)
  modify λ n. record n { values = keep_if (stays range_start range_end) n.values }

-- `elapsed().as_secs()`
abbrev pub elapsed_secs : ℕ → ℕ → ℕ
elapsed_secs now since = (now - since) / 10 ^ 9

unfoldable pub send_alive : Exec (Unit {0})
send_alive = do
  w ← world
  if ltb 10 (elapsed_secs w.now w.node.last_alive)
      then (do
        modify λ n. record n { last_alive = w.now }
        udp_send (net_alive NetAlive.new) w.node.tracker_addr)
      else pure tt

abbrev pub covers : ℕ × ℕ → ℕ → Bool
covers (min, max) h = leb min h && leb h max

abbrev pub in_my_range : Node → Text → Bool
in_my_range n ssn = covers n.hash_range (hash_ssn ssn)
