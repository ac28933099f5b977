-- ===== src/Tests/Samples.antt =====
-- Data for the tests.
use distributed_hash_table.Prelude.{ℕ, List, [], ◌∷◌, Option, some, true, false}
use distributed_hash_table.Pdu.SocketAddr.{SocketAddr, v4}
use distributed_hash_table.Pdu.Text.{Text}
use distributed_hash_table.Pdu.Message.{Pdu}
use distributed_hash_table.Socket.TcpWrapper
use distributed_hash_table.Socket.UdpWrapper
use distributed_hash_table.Node.Entry.{Entry, new}
use distributed_hash_table.Node.Types.{Node, World, State, Stream}

-- Two numbers, with the hashes 26 and 27.
abbrev pub number : Text
number = b'a' ∷ b'a' ∷ b'a' ∷ b'a' ∷ b'a' ∷ b'b' ∷ b'b' ∷ b'b' ∷ b'b' ∷ b'b' ∷ b'c' ∷ b'c' ∷ []

abbrev pub other_number : Text
other_number =
    b'a' ∷ b'a' ∷ b'a' ∷ b'a' ∷ b'a' ∷ b'b' ∷ b'b' ∷ b'b' ∷ b'b' ∷ b'b' ∷ b'c' ∷ b'd' ∷ []

abbrev pub name : Text
name = b'A' ∷ b'd' ∷ b'a' ∷ []

abbrev pub email : Text
email = b'a' ∷ b'@' ∷ b'b' ∷ []

abbrev pub entry : Entry
entry = new number name email

abbrev pub other_entry : Entry
other_entry = new other_number name email

abbrev pub tracker_addr : SocketAddr
tracker_addr = v4 1 8000

abbrev pub next_addr : SocketAddr
next_addr = v4 2 8001

abbrev pub previous_addr : SocketAddr
previous_addr = v4 3 8002

abbrev pub own_addr : SocketAddr
own_addr = v4 4 8003

abbrev pub client_addr : SocketAddr
client_addr = v4 5 8004

abbrev pub next : Stream
next = record { peer_addr = next_addr }

abbrev pub previous : Stream
previous = record { peer_addr = previous_addr }

abbrev pub node_in : State → ℕ × ℕ → Option Pdu → List Entry → Node
node_in state hash_range last_pdu values = record {
  state = state;
  own_address = some 4;
  values = values;
  hash_range = hash_range;
  last_alive = 0;
  last_pdu = last_pdu;
  successor_listen = some next_addr;
  should_close = false;
  running = true;
  tracker_addr = tracker_addr;
  udp_wrapper = UdpWrapper.new;
  successor_wrapper = TcpWrapper.new;
  successor = some next;
  predecessor_wrapper = TcpWrapper.new;
  predecessor = some previous;
  listen_socket = own_addr;
}

-- Everything can be reached, and nothing has been sent.
abbrev pub world_of : Node → World
world_of node = record {
  node = node;
  now = 1000;
  polls = [];
  accepts = some previous ∷ [];
  reachable = λ _. true;
  sent = [];
}
