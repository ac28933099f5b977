-- ===== src/Socket/TcpWrapper/TryRead.antt =====
-- Receiving over TCP.
use distributed_hash_table.Prelude.{
  ℕ, ◌+◌, ◌-◌, ◌≤◌, ◌<◌, ◌≡◌, List, [], ◌∷◌, ◌++◌, map, false, ltb, ok, ◌>>=◌, none, arith, length,
  All, length-append, append_assoc, append-nil, take_whole,
}
use distributed_hash_table.Pdu.Message.{Pdu, IsWire}
use distributed_hash_table.Pdu.SocketAddr.{SocketAddr}
use distributed_hash_table.Socket.Parse.{parse_pdu}
use distributed_hash_table.Socket.Parse.RoundTrip.{received as arrived}
use distributed_hash_table.Socket.Buffer.{buffer_size, fill, drain_all}
use distributed_hash_table.Socket.Buffer.Drain.{concat, drain_all-concat}
use distributed_hash_table.Socket.TcpWrapper.{
  TcpWrapper, Read, received, read_would_block, read_loop, try_read,
}

-- Answers that carry data, and the data.
abbrev pub chunks : List (List ℕ) → List Read
chunks cs = map received cs

abbrev pub joined : List (List ℕ) → List ℕ
joined [] = []
joined (c ∷ cs) = c ++ joined cs

abbrev pub NonEmpty : List ℕ → Type 0
NonEmpty c = 1 ≤ length c

read_loop-chunks :
    (cs : List (List ℕ)) (filled : List ℕ)
    → All NonEmpty cs
    → length filled + length (joined cs) < buffer_size
    → read_loop (chunks cs) filled ≡ ok (filled ++ joined cs, false)
unfolding read_loop
read_loop-chunks [] filled n h = ground (arith, append-nil filled)
read_loop-chunks ([] ∷ cs) filled n h = absurd (omega arith)
read_loop-chunks ((b ∷ bs) ∷ cs) filled n h =
    let c : List ℕ = b ∷ bs in
    let whole =
      take_whole (buffer_size - length filled) c (omega (arith, length-append c (joined cs))) in
    ground (
      arith,
      whole,
      length-append c (joined cs),
      length-append filled c,
      append_assoc filled c (joined cs),
      read_loop-chunks cs (filled ++ c) n.1,
    )

-- Where what is in the buffer and the non-empty pieces that a socket gives make up the bytes of
-- well-formed messages and a tail in which the parser finds none, and are fewer than the buffer
-- holds, try_read queues each message, as it is parsed, once, in order, under the address of the
-- peer and behind those that wait, keeps the tail, and reports the stream as open.
pub try_read_delivers :
    (w : TcpWrapper) (peer : SocketAddr) (cs : List (List ℕ)) (ps : List Pdu) (tail : List ℕ)
    → All NonEmpty cs
    → All IsWire ps
    → w.buffer ++ joined cs ≡ concat ps ++ tail
    → parse_pdu tail ≡ ok none
    → length w.buffer + length (joined cs) < buffer_size
    → try_read w peer (chunks cs)
      ≡ ok (
        record {
          incoming_queue = w.incoming_queue ++ map (λ pdu. (pdu, peer)) (map arrived ps);
          buffer = tail;
        },
        false,
      )
unfolding try_read
try_read_delivers w peer cs ps tail n ws e t h =
    rw (read_loop-chunks cs w.buffer n h, e, drain_all-concat ps tail ws t)

read_loop_piece :
    (c : List ℕ) (answers : List Read) (filled : List ℕ)
    → 1 ≤ length c
    → length filled ≤ buffer_size
    → read_loop (received c ∷ read_would_block ∷ answers) filled
      ≡ ok (fill filled c, ltb buffer_size (length filled + length c))
unfolding read_loop
read_loop_piece [] answers filled n h = absurd (omega arith)
read_loop_piece (b ∷ bytes) answers filled n h = ground arith

-- If a socket has one piece of data when it is read and none after it, try_read reports the stream
-- as closed exactly if the piece has more bytes than there is room for in the buffer, whatever the
-- socket would give later; what fits is parsed and queued as usual.
pub try_read_full :
    (w : TcpWrapper) (peer : SocketAddr) (c : List ℕ) (answers : List Read)
    → 1 ≤ length c
    → length w.buffer ≤ buffer_size
    → try_read w peer (received c ∷ read_would_block ∷ answers) ≡ (
        drain_all (fill w.buffer c) >>= λ r. ok (
          record {
            incoming_queue = w.incoming_queue ++ map (λ pdu. (pdu, peer)) r.0;
            buffer = r.1;
          },
          ltb buffer_size (length w.buffer + length c),
        ))
unfolding try_read
try_read_full w peer c answers n h = rw (read_loop_piece c answers w.buffer n h)
