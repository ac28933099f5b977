-- ===== src/Client/Dialogue.antt =====
-- A session with the client: what it sends for the lines that are typed, and what it shows.
use distributed_hash_table.Prelude.{
  ℕ, zero, suc, ◌≤◌, ◌≡◌, refl, List, [], ◌∷◌, ◌++◌, Option, some, Bool, true, false, ok, stuck,
  append_assoc, append-nil, length, All,
}
use distributed_hash_table.Pdu.Text.{Text, text_eq}
use distributed_hash_table.Pdu.SocketAddr.{SocketAddr}
use distributed_hash_table.Pdu.ValInsert
use distributed_hash_table.Pdu.ValRemove
use distributed_hash_table.Pdu.ValLookup
use distributed_hash_table.Pdu.ValLookupResponse.{ValLookupResponsePdu}
use distributed_hash_table.Pdu.Message.{
  Pdu, val_insert, val_remove, val_lookup, val_lookup_response, to_bytes, IsWire,
}
use distributed_hash_table.Socket.Buffer.{buffer_size}
use distributed_hash_table.Socket.UdpWrapper
use distributed_hash_table.Socket.UdpWrapper.{Receive}
use distributed_hash_table.Client.{Client, done}
use distributed_hash_table.Client.Requests.{answer_at, looks_up}
use distributed_hash_table.Client.Terminal.{trim}
use distributed_hash_table.Client.Main.{insert_word, remove_word, lookup_word, exit_word, main_loop}

-- What a user does at the prompt. A lookup has its answer after `k` reads that give nothing.
pub data Task : Type 0 where
  inserts : (ssn name email : Text) → Task
  removes : (ssn : Text) → Task
  looks : (ssn : Text) (k : ℕ) (p : ValLookupResponsePdu) → Task
  mistypes : (line : Text) → Task

-- A word and the end of its line.
abbrev pub typed : Text → Option Text
typed word = some (word ++ 10 ∷ [])

abbrev pub lines : List Task → List (Option Text) → List (Option Text)
lines [] rest = rest
lines (inserts ssn name email ∷ ts) rest =
    typed insert_word ∷ some ssn ∷ some name ∷ some email ∷ lines ts rest
lines (removes ssn ∷ ts) rest = typed remove_word ∷ some ssn ∷ lines ts rest
lines (looks ssn k p ∷ ts) rest = typed lookup_word ∷ some ssn ∷ lines ts rest
lines (mistypes line ∷ ts) rest = some line ∷ lines ts rest

abbrev pub shown : List Task → List (Text × Text × Text)
shown [] = []
shown (inserts ssn name email ∷ ts) = shown ts
shown (removes ssn ∷ ts) = shown ts
shown (looks ssn k p ∷ ts) = (p.ssn, p.name, p.email) ∷ shown ts
shown (mistypes line ∷ ts) = shown ts

abbrev pub CanDo : Task → Type 0
CanDo (inserts ssn name email) = Unit {0}
CanDo (removes ssn) = Unit {0}
CanDo (looks ssn k p) =
    IsWire (val_lookup_response p) × (length (to_bytes (val_lookup_response p)) ≤ buffer_size)
CanDo (mistypes line) =
    (text_eq (trim line) insert_word ≡ false)
    × (text_eq (trim line) remove_word ≡ false)
    × (text_eq (trim line) lookup_word ≡ false)
    × (text_eq (trim line) exit_word ≡ false)

abbrev pub answers : SocketAddr → List Task → List (List Receive) → List (List Receive)
answers node [] rest = rest
answers node (inserts ssn name email ∷ ts) rest = answers node ts rest
answers node (removes ssn ∷ ts) rest = answers node ts rest
answers node (looks ssn k p ∷ ts) rest =
    answer_at k (val_lookup_response p) node (answers node ts rest)
answers node (mistypes line ∷ ts) rest = answers node ts rest

module _ (my_address my_port : ℕ) (node : SocketAddr) where
  abbrev pub requests : List Task → List (SocketAddr × Pdu)
  requests [] = []
  requests (inserts ssn name email ∷ ts) =
      (node, val_insert (ValInsert.new (trim ssn) (trim name) (trim email))) ∷ requests ts
  requests (removes ssn ∷ ts) = (node, val_remove (ValRemove.new (trim ssn))) ∷ requests ts
  requests (looks ssn k p ∷ ts) =
      (node, val_lookup (ValLookup.new (trim ssn) my_address my_port)) ∷ requests ts
  requests (mistypes line ∷ ts) = requests ts

module _ (reachable : SocketAddr → Bool) (my_address my_port : ℕ) (node : SocketAddr) where
  abbrev after : List Task → List (Option Text) → List (List Receive) → Client → Client
  after ts rest later c = record c {
    inputs = rest;
    reads = later;
    sent = c.sent ++ requests my_address my_port node ts;
    printed = c.printed ++ shown ts;
  }

  -- x
  pub dialogue_lem :
      (ts : List Task) (c : Client) (rest : List (Option Text)) (later : List (List Receive))
      → reachable node ≡ true
      → c.udp_wrapper ≡ UdpWrapper.new
      → c.inputs ≡ lines ts (typed exit_word ∷ rest)
      → c.reads ≡ answers node ts later
      → All CanDo ts
      → main_loop reachable my_address my_port node (suc (length ts)) c
        ≡ ok (done, after ts rest later c)
  unfolding main_loop
  dialogue_lem [] c rest later r u i a h = rw (i, a, append-nil c.sent, append-nil c.printed) refl
  dialogue_lem (inserts ssn name email ∷ ts) c rest later r u i a h =
      let next : Client = record c {
        inputs = lines ts (typed exit_word ∷ rest);
        sent = c.sent ++ requests my_address my_port node (inserts ssn name email ∷ []);
      } in
      rw (i, r, dialogue_lem ts next rest later r u refl a h.1, append_assoc) refl
  dialogue_lem (removes ssn ∷ ts) c rest later r u i a h =
      let next : Client = record c {
        inputs = lines ts (typed exit_word ∷ rest);
        sent = c.sent ++ requests my_address my_port node (removes ssn ∷ []);
      } in
      rw (i, r, dialogue_lem ts next rest later r u refl a h.1, append_assoc) refl
  dialogue_lem (looks ssn k p ∷ ts) c rest later r u i a h =
      let asked : Client = record c { inputs = lines ts (typed exit_word ∷ rest) } in
      let next : Client = record asked {
        reads = answers node ts later;
        sent = c.sent ++ requests my_address my_port node (looks ssn k p ∷ []);
        printed = c.printed ++ shown (looks ssn k p ∷ []);
      } in
      rw
        (
          i,
          looks_up reachable asked k (trim ssn) my_address my_port node p (answers node ts later) r
              a u h.0.0 h.0.1,
          dialogue_lem ts next rest later r u refl refl h.1,
          append_assoc c.sent,
          append_assoc c.printed,
        )
        refl
  dialogue_lem (mistypes line ∷ ts) c rest later r u i a h =
      let next : Client = record c { inputs = lines ts (typed exit_word ∷ rest) } in
      rw (i, h.0.0, h.0.1, h.0.2, h.0.3, dialogue_lem ts next rest later r u refl a h.1) refl

  -- Once the input of the terminal has ended, the loop of the client never ends: bounded to any
  -- number of rounds, it runs out of them.
  pub main_loop_at_end :
      (rounds : ℕ) (c : Client)
      → c.inputs ≡ []
      → main_loop reachable my_address my_port node rounds c ≡ stuck
  unfolding main_loop
  main_loop_at_end zero c e = refl
  main_loop_at_end (suc rounds) c e = rw e (main_loop_at_end rounds (record c { inputs = [] }) refl)
