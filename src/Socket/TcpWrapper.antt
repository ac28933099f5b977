-- ===== src/Socket/TcpWrapper.antt =====
-- `TcpWrapper` of socket_wrapper.rs. What the operating system answers to the calls of `write` and
-- `read` is a list of answers, one for each call.
pub mod Send
pub mod TryRead
pub mod Cut
use distributed_hash_table.Prelude.{
  ℕ, List, [], ◌∷◌, ◌++◌, map, Bool, true, false, Option, none, some, Outcome, ok, panic, waits,
  ◌>>=◌, ltb, if◌then◌else◌, length, take, drop,
}
use distributed_hash_table.Pdu.Message.{Pdu, to_bytes}
use distributed_hash_table.Pdu.SocketAddr.{SocketAddr}
use distributed_hash_table.Socket.Buffer.{Message, has_room, fill, drain_all}

-- Answers to `write`.
pub data Write : Type 0 where
  wrote : ℕ → Write
  write_would_block write_failed : Write

-- Answers to `read`: `received []` is the end of the stream.
pub data Read : Type 0 where
  received : List ℕ → Read
  read_would_block read_failed : Read

pub record TcpWrapper : Type 0 where
  pub incoming_queue : List Message
  pub buffer : List ℕ

abbrev pub new : TcpWrapper
new = record { incoming_queue = []; buffer = [] }

-- `bytes` is `bytes[sent..]`; the result is what the system took. Slicing panics past the end.
send_loop : List Write → List ℕ → Outcome (List ℕ)
send_loop answers [] = ok []
send_loop [] (b ∷ bytes) = waits
send_loop (wrote amt ∷ answers) (b ∷ bytes) =
    let rest = send_loop answers (drop amt (b ∷ bytes)) in
    if ltb (length (b ∷ bytes)) amt
    then panic
    else do later ← rest; ok (take amt (b ∷ bytes) ++ later)
send_loop (write_would_block ∷ answers) (b ∷ bytes) = send_loop answers (b ∷ bytes)
send_loop (write_failed ∷ answers) (b ∷ bytes) = panic

unfoldable pub send : List Write → Pdu → Outcome (List ℕ)
unfolding send_loop
send answers pdu = send_loop answers (to_bytes pdu)

unfoldable pub next_pdu : TcpWrapper → Option Message × TcpWrapper
next_pdu w = elim w.incoming_queue [
  | [] ↦ (none, w)
  | m ∷ rest ↦ (some m, record w { incoming_queue = rest })
]

-- A piece is what the socket has when it is read. What there is no room for stays in the socket, and
-- the next read, which has no room, takes no byte of it: its `Ok(0)` counts as the end of the stream.
-- Without data a read gives `WouldBlock`, with room or without.
read_loop : List Read → List ℕ → Outcome (List ℕ × Bool)
read_loop [] filled = ok (filled, false)
read_loop (received [] ∷ answers) filled = ok (filled, true)
read_loop (received (b ∷ bytes) ∷ answers) filled =
    let rest = read_loop answers (fill filled (b ∷ bytes)) in
    if has_room filled (b ∷ bytes) then rest else ok (fill filled (b ∷ bytes), true)
read_loop (read_would_block ∷ answers) filled = ok (filled, false)
read_loop (read_failed ∷ answers) filled = panic

unfoldable pub try_read : TcpWrapper → SocketAddr → List Read → Outcome (TcpWrapper × Bool)
unfolding read_loop
try_read w peer answers = do
  (filled, closed) ← read_loop answers w.buffer
  (pdus, left) ← drain_all filled
  ok (
    record { incoming_queue = w.incoming_queue ++ map (λ pdu. (pdu, peer)) pdus; buffer = left },
    closed,
  )
