-- ===== src/Socket/UdpWrapper.antt =====
-- `UdpWrapper` of socket_wrapper.rs. What the operating system answers to the calls of `send_to` and
-- `recv_from` is a list of answers, one for each call.
pub mod TryRead
use distributed_hash_table.Prelude.{
  ℕ, List, [], ◌∷◌, ◌++◌, map, Option, none, some, Outcome, ok, panic, waits, ◌>>=◌, not, ◌==◌,
  if◌then◌else◌, length,
}
use distributed_hash_table.Pdu.Message.{Pdu, to_bytes}
use distributed_hash_table.Pdu.SocketAddr.{SocketAddr}
use distributed_hash_table.Socket.Buffer.{Message, fill, drain_all}

-- Answers to `send_to`.
pub data Send : Type 0 where
  sent : ℕ → Send
  send_would_block send_failed : Send

-- Answers to `recv_from`.
pub data Receive : Type 0 where
  datagram : List ℕ → SocketAddr → Receive
  receive_would_block receive_failed : Receive

pub record UdpWrapper : Type 0 where
  pub incoming_queue : List Message
  pub buffer : List ℕ

abbrev pub new : UdpWrapper
new = record { incoming_queue = []; buffer = [] }

send_loop : List Send → List ℕ → Outcome (List ℕ)
send_loop [] bytes = waits
send_loop (sent amt ∷ answers) bytes = if not (amt == length bytes) then panic else ok bytes
send_loop (send_would_block ∷ answers) bytes = send_loop answers bytes
send_loop (send_failed ∷ answers) bytes = panic

-- The result is the datagram that the system took.
unfoldable pub send : List Send → Pdu → Outcome (List ℕ)
unfolding send_loop
send answers pdu = send_loop answers (to_bytes pdu)

unfoldable pub next_pdu : UdpWrapper → Option Message × UdpWrapper
next_pdu w = elim w.incoming_queue [
  | [] ↦ (none, w)
  | m ∷ rest ↦ (some m, record w { incoming_queue = rest })
]

-- A datagram is cut where the buffer ends. All datagrams go through one buffer, whoever sent them.
unfoldable pub try_read : UdpWrapper → List Receive → Outcome UdpWrapper
try_read w [] = ok w
try_read w (datagram bytes src ∷ answers) = do
  (pdus, left) ← drain_all (fill w.buffer bytes)
  try_read
      (record { incoming_queue = w.incoming_queue ++ map (λ pdu. (pdu, src)) pdus; buffer = left })
      answers
try_read w (receive_would_block ∷ answers) = ok w
try_read w (receive_failed ∷ answers) = panic
