-- ===== src/Socket/Buffer.antt =====
-- The receive buffer, which both wrappers of socket_wrapper.rs keep and empty in the same way. The
-- model holds `buffer[..buffer_fill]`, so its length is `buffer_fill`.
pub mod Drain
use distributed_hash_table.Prelude.{
  ℕ, zero, suc, ◌-◌, List, [], ◌∷◌, ◌++◌, Bool, Option, none, some, Outcome, ok, panic, stuck,
  ◌>>=◌, ltb, leb, if◌then◌else◌, length, take, drop,
}
use distributed_hash_table.Pdu.Message.{Pdu}
use distributed_hash_table.Pdu.SocketAddr.{SocketAddr}
use distributed_hash_table.Socket.Parse.{parse_pdu}

abbrev pub buffer_size : ℕ
buffer_size = 25600

abbrev pub Message : Type 0
Message = Pdu × SocketAddr

-- Whether `buffer[buffer_fill..]` takes all of `bytes`.
abbrev pub has_room : List ℕ → List ℕ → Bool
has_room filled bytes = leb (length bytes) (buffer_size - length filled)

-- A read puts into the buffer what there is room for.
abbrev pub fill : List ℕ → List ℕ → List ℕ
fill filled bytes = filled ++ take (buffer_size - length filled) bytes

-- `copy_within(used..buffer_fill, 0)` panics where the range is inverted.
abbrev pub consume : ℕ → List ℕ → Outcome (List ℕ)
consume used filled = if ltb (length filled) used then panic else ok (drop used filled)

-- One round of `while let Some((pdu, used)) = parse_pdu(..)`; `again` is the rest of the loop.
drain_next :
    (List ℕ → Outcome (List Pdu × List ℕ)) → List ℕ → Option (Pdu × ℕ) → Outcome (List Pdu × List ℕ)
drain_next again filled none = ok ([], filled)
drain_next again filled (some (pdu, used)) = do
  left ← consume used filled
  (pdus, left') ← again left
  ok (pdu ∷ pdus, left')

-- The messages in the order in which they are queued, and what stays in the buffer.
unfoldable pub drain : ℕ → List ℕ → Outcome (List Pdu × List ℕ)
unfolding drain_next
drain zero filled = stuck
drain (suc fuel) filled = do parsed ← parse_pdu filled; drain_next (drain fuel) filled parsed

-- Each round takes a byte at least, so one round more than there are bytes is enough.
unfoldable pub drain_all : List ℕ → Outcome (List Pdu × List ℕ)
drain_all filled = drain (suc (length filled)) filled
