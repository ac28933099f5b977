-- ===== src/Tests/Wrappers.antt =====
-- Streams and datagrams of samples.
use distributed_hash_table.Prelude.{
  ℕ, suc, zero, ◌≡◌, ◌≢◌, refl, List, [], ◌∷◌, ◌++◌, map, none, false, ok, waits, stuck, ◌>>=◌,
  arith, length, ltb,
}
use distributed_hash_table.Pdu.StunLookup
use distributed_hash_table.Pdu.NetNewRange
use distributed_hash_table.Pdu.Message.{Pdu, stun_lookup, net_new_range, to_bytes, IsWire}
use distributed_hash_table.Socket.Parse.{parse_pdu, parse_net_pdu}
use distributed_hash_table.Socket.Buffer.{buffer_size, fill, drain_all}
use distributed_hash_table.Socket.Buffer.Drain.{concat, drain_all_ends}
use distributed_hash_table.Socket.TcpWrapper
use distributed_hash_table.Socket.TcpWrapper.{
  TcpWrapper, wrote, write_would_block, received, read_would_block,
}
use distributed_hash_table.Socket.TcpWrapper.Send.{send_whole, send_returns}
use distributed_hash_table.Socket.TcpWrapper.TryRead.{chunks, try_read_delivers, try_read_full}
use distributed_hash_table.Socket.TcpWrapper.Cut.{try_read_resumes}
use distributed_hash_table.Socket.UdpWrapper
use distributed_hash_table.Socket.UdpWrapper.{datagram}
use distributed_hash_table.Socket.UdpWrapper.TryRead.{datagrams, try_read_batches, try_read_mixes}
use distributed_hash_table.Tests.Samples.{next_addr, client_addr, own_addr}

abbrev offer : Pdu
offer = net_new_range (NetNewRange.new 3 9)

offer-IsWire : IsWire offer
unfolding NetNewRange.new
offer-IsWire = record { tag = refl; range_start = omega arith; range_end = omega arith }

-- Its three bytes.
offer_bytes : to_bytes offer ≡ 6 ∷ 3 ∷ 9 ∷ []
unfolding to_bytes NetNewRange.to_bytes NetNewRange.new
offer_bytes = refl

drain_all_ends_example : (drain_all (6 ∷ 3 ∷ []) ≢ waits) × (drain_all (6 ∷ 3 ∷ []) ≢ stuck)
drain_all_ends_example = drain_all_ends (6 ∷ 3 ∷ [])

part_waits : parse_pdu (6 ∷ 3 ∷ []) ≡ ok none
unfolding parse_pdu parse_net_pdu NetNewRange.try_parse
part_waits = refl

-- Three bytes go in two writes, with a socket that is not ready in between.
send_returns_example :
    TcpWrapper.send (wrote 1 ∷ write_would_block ∷ wrote 2 ∷ []) offer ≡ ok (to_bytes offer)
send_returns_example =
    send_returns (wrote 1 ∷ write_would_block ∷ wrote 2 ∷ []) offer
      (rw offer_bytes (2, refl, (0, refl, refl)))

sent_in_two :
    TcpWrapper.send (wrote 1 ∷ write_would_block ∷ wrote 2 ∷ []) offer ≡ ok (6 ∷ 3 ∷ 9 ∷ [])
sent_in_two = rw offer_bytes at send_returns_example

send_whole_example : 6 ∷ 3 ∷ 9 ∷ [] ≡ to_bytes offer
send_whole_example =
    send_whole (wrote 1 ∷ write_would_block ∷ wrote 2 ∷ []) offer (6 ∷ 3 ∷ 9 ∷ []) sent_in_two

-- A wrapper with the first byte of a message, and one message in its queue.
abbrev begun : TcpWrapper
begun = record { incoming_queue = (stun_lookup StunLookup.new, own_addr) ∷ []; buffer = 6 ∷ [] }

pieces_lem : 6 ∷ 3 ∷ 9 ∷ 6 ∷ 3 ∷ [] ≡ concat (offer ∷ []) ++ 6 ∷ 3 ∷ []
pieces_lem = rw offer_bytes refl

try_read_delivers_example :
    TcpWrapper.try_read begun next_addr (chunks ((3 ∷ []) ∷ (9 ∷ 6 ∷ 3 ∷ []) ∷ []))
    ≡ ok (
      record {
        incoming_queue = (stun_lookup StunLookup.new, own_addr) ∷ (offer, next_addr) ∷ [];
        buffer = 6 ∷ 3 ∷ [];
      },
      false,
    )
try_read_delivers_example =
    try_read_delivers begun next_addr ((3 ∷ []) ∷ (9 ∷ 6 ∷ 3 ∷ []) ∷ []) (offer ∷ []) (6 ∷ 3 ∷ [])
      (omega arith, (omega arith, tt)) (offer-IsWire, tt) pieces_lem part_waits (omega arith)

-- A message whole, and one byte of the next; then its other two bytes and two of a third.
try_read_resumes_example :
    (TcpWrapper.try_read TcpWrapper.new next_addr (chunks ((6 ∷ 3 ∷ 9 ∷ 6 ∷ []) ∷ [])) >>= λ r.
    TcpWrapper.try_read r.0 next_addr (chunks ((3 ∷ 9 ∷ []) ∷ (6 ∷ 3 ∷ []) ∷ [])))
    ≡ ok (
      record { incoming_queue = (offer, next_addr) ∷ (offer, next_addr) ∷ []; buffer = 6 ∷ 3 ∷ [] },
      false,
    )
try_read_resumes_example =
    try_read_resumes TcpWrapper.new next_addr ((6 ∷ 3 ∷ 9 ∷ 6 ∷ []) ∷ [])
      ((3 ∷ 9 ∷ []) ∷ (6 ∷ 3 ∷ []) ∷ []) (offer ∷ []) offer [] (6 ∷ 3 ∷ []) 1 (omega arith, tt)
      (omega arith, (omega arith, tt)) (offer-IsWire, tt) offer-IsWire tt
      (rw offer_bytes (omega arith)) (λ e. cc) (rw offer_bytes refl) (rw offer_bytes refl)
      part_waits (omega arith) (omega arith)

abbrev repeat : ℕ → ℕ → List ℕ
repeat zero b = []
repeat (suc n) b = b ∷ repeat n b

length-repeat : (n b : ℕ) → length (repeat n b) ≡ n
length-repeat zero b = refl
length-repeat (suc n) b = ground (arith, length-repeat n b)

-- One byte more than there is room for.
try_read_full_example :
    TcpWrapper.try_read TcpWrapper.new next_addr
      (received (repeat (suc buffer_size) 200) ∷ read_would_block ∷ [])
    ≡ (drain_all (fill [] (repeat (suc buffer_size) 200)) >>= λ r. ok (
      record { incoming_queue = map (λ pdu. (pdu, next_addr)) r.0; buffer = r.1 },
      ltb buffer_size (length (repeat (suc buffer_size) 200)),
    ))
try_read_full_example =
    try_read_full TcpWrapper.new next_addr (repeat (suc buffer_size) 200) []
      (omega (arith, length-repeat (suc buffer_size) 200)) (omega arith)

try_read_batches_example :
    UdpWrapper.try_read UdpWrapper.new
      (datagrams ((offer ∷ offer ∷ [], client_addr) ∷ (offer ∷ [], next_addr) ∷ []))
    ≡ ok (record {
      incoming_queue = (offer, client_addr) ∷ (offer, client_addr) ∷ (offer, next_addr) ∷ [];
      buffer = [];
    })
try_read_batches_example =
    try_read_batches [] ((offer ∷ offer ∷ [], client_addr) ∷ (offer ∷ [], next_addr) ∷ []) (
      ((offer-IsWire, (offer-IsWire, tt)), rw offer_bytes (omega arith)),
      (((offer-IsWire, tt), rw offer_bytes (omega arith)), tt),
    )

-- Two bytes of one sender and one of another become one message of the second.
try_read_mixes_example :
    UdpWrapper.try_read UdpWrapper.new
      (datagram (6 ∷ 3 ∷ []) client_addr ∷ datagram (9 ∷ []) next_addr ∷ [])
    ≡ ok (record { incoming_queue = (offer, next_addr) ∷ []; buffer = [] })
try_read_mixes_example =
    try_read_mixes [] offer (6 ∷ 3 ∷ []) (9 ∷ []) client_addr next_addr offer-IsWire
      (rw offer_bytes refl) part_waits (rw offer_bytes (omega arith))
