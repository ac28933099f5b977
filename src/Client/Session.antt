-- ===== src/Client/Session.antt =====
-- A whole run of the client: its own address, the rows of a file, and the dialogue.
use distributed_hash_table.Prelude.{
  ℕ, suc, ◌≡◌, refl, List, [], ◌∷◌, ◌++◌, map, Option, some, Bool, true, ok, append_assoc, length,
  All,
}
use distributed_hash_table.Pdu.Bytes.{IsU32}
use distributed_hash_table.Pdu.Text.{Text}
use distributed_hash_table.Pdu.SocketAddr.{SocketAddr}
use distributed_hash_table.Pdu.StunLookup
use distributed_hash_table.Pdu.StunResponse
use distributed_hash_table.Pdu.ValInsert
use distributed_hash_table.Pdu.Message.{stun_lookup, stun_response, val_insert}
use distributed_hash_table.Socket.UdpWrapper
use distributed_hash_table.Socket.UdpWrapper.{Receive}
use distributed_hash_table.Client.{Client, Person, done}
use distributed_hash_table.Client.Requests.{answer_at, finds_address, send_csv_lem}
use distributed_hash_table.Client.Main.{Opt, exit_word, main}
use distributed_hash_table.Client.Dialogue.{
  Task, typed, lines, shown, CanDo, answers, requests, dialogue_lem,
}

module _ (reachable : SocketAddr → Bool) (open_csv : Text → Option (List (Option Person))) where
  -- With nothing buffered, and with the tracker and the node that is given within reach, a run of
  -- the client asks the tracker for its address, sends a VAL_INSERT for each row of a file without
  -- errors, in order, and then for every insert, remove and lookup that is typed, until exit, the
  -- message of that kind with the texts that were typed, trimmed, to the node; a lookup takes the
  -- well-formed VAL_LOOKUP_RESPONSE that the node sends after any number of reads with nothing to
  -- read, and its texts are shown; other words send nothing. The run returns without an error, and
  -- nothing else is sent or shown.
  pub whole_session :
      (opt : Opt) (node : SocketAddr) (file : Text) (people : List Person) (k ip port : ℕ)
      (ts : List Task) (c : Client) (rest : List (Option Text)) (later : List (List Receive))
      → opt.node ≡ some node
      → opt.csv ≡ some file
      → open_csv file ≡ some (map some people)
      → reachable opt.tracker ≡ true
      → reachable node ≡ true
      → IsU32 ip
      → c.udp_wrapper ≡ UdpWrapper.new
      → c.inputs ≡ lines ts (typed exit_word ∷ rest)
      → c.reads
        ≡ answer_at k (stun_response (StunResponse.new ip)) opt.tracker (answers node ts later)
      → All CanDo ts
      → main reachable open_csv (suc (length ts)) port opt c
        ≡ ok (
          done,
          record c {
            inputs = rest;
            reads = later;
            sent =
                c.sent
                ++ (opt.tracker, stun_lookup StunLookup.new)
                  ∷ (map
                        (λ (p : Person). (node, val_insert (ValInsert.new p.ssn p.name p.email)))
                        people
                      ++ requests ip port node ts);
            printed = c.printed ++ shown ts;
          },
        )
  unfolding main
  whole_session opt node file people k ip port ts c rest later n f o t r i u l a h =
      let asked : Client = record c {
        sent = c.sent ++ (opt.tracker, stun_lookup StunLookup.new) ∷ [];
      } in
      let known : Client = record asked { reads = answers node ts later } in
      let filled : Client = record known {
        sent =
            known.sent
            ++ map (λ (p : Person). (node, val_insert (ValInsert.new p.ssn p.name p.email))) people;
      } in
      rw (finds_address reachable c k opt.tracker ip (answers node ts later) t a u i) (
        rw
          (
            n,
            f,
            o,
            send_csv_lem reachable people node known r,
            dialogue_lem reachable ip port node ts filled rest later r u l refl h,
          )
          (rw (append_assoc known.sent, append_assoc c.sent) refl))
