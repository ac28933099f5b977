-- ===== src/Tests/Clients.antt =====
-- A sample client.
use distributed_hash_table.Prelude.{
  ◌≡◌, refl, List, [], ◌∷◌, ◌++◌, Option, some, Bool, true, ok, stuck, arith, length, All,
}
use distributed_hash_table.Pdu.SocketAddr.{SocketAddr}
use distributed_hash_table.Pdu.Text.{Text}
use distributed_hash_table.Pdu.StunLookup
use distributed_hash_table.Pdu.StunResponse
use distributed_hash_table.Pdu.NetGetNode
use distributed_hash_table.Pdu.ValInsert
use distributed_hash_table.Pdu.NetGetNodeResponse
use distributed_hash_table.Pdu.ValLookup
use distributed_hash_table.Pdu.ValLookupResponse
use distributed_hash_table.Pdu.Message.{
  net_get_node, net_get_node_response, stun_lookup, stun_response, val_insert, val_lookup,
  val_lookup_response, to_bytes, IsWire,
}
use distributed_hash_table.Socket.UdpWrapper
use distributed_hash_table.Client.{Client, Person, done, get_node}
use distributed_hash_table.Client.Main.{Opt, exit_word, main_loop, main}
use distributed_hash_table.Client.Dialogue.{
  Task, inserts, mistypes, looks, typed, lines, CanDo, answers, main_loop_at_end,
}
use distributed_hash_table.Client.Session.{whole_session}
use distributed_hash_table.Client.Requests.{answer_at, finds_node}
use distributed_hash_table.Tests.Samples.{number, name, email, tracker_addr, next_addr}

abbrev always : SocketAddr → Bool
always _ = true

response-IsWire : IsWire (val_lookup_response (ValLookupResponse.new number name email))
response-IsWire =
    ValLookupResponse.new-IsWire number name email (ground arith) refl (ground arith) (omega arith)
      (ground arith) (omega arith)

-- The answer comes at the third read.
abbrev looking : Client
looking = record {
  udp_wrapper = UdpWrapper.new;
  reads = answer_at 2 (val_lookup_response (ValLookupResponse.new number name email)) next_addr [];
  inputs = [];
  sent = [];
  printed = [];
}

response_size :
    length (to_bytes (val_lookup_response (ValLookupResponse.new number name email))) ≡ 21
unfolding ValLookupResponse.new to_bytes ValLookupResponse.to_bytes
response_size = refl

abbrev asking : Client
asking = record {
  udp_wrapper = UdpWrapper.new;
  reads = answer_at 1 (net_get_node_response (NetGetNodeResponse.new 2 8001)) tracker_addr [];
  inputs = [];
  sent = [];
  printed = [];
}

finds_node_example :
    get_node always tracker_addr asking
    ≡ ok (
      some next_addr,
      record asking { reads = []; sent = (tracker_addr, net_get_node NetGetNode.new) ∷ [] },
    )
finds_node_example =
    finds_node always asking 1 tracker_addr 2 8001 [] refl refl refl (omega arith) (omega arith)

-- A session: one row of a file, an insertion, a typing error, a lookup, and the end.
abbrev tasks : List Task
tasks =
    inserts (number ++ 10 ∷ []) name email
    ∷ mistypes (b'?' ∷ 10 ∷ [])
    ∷ looks number 1 (ValLookupResponse.new number name email)
    ∷ []

tasks-CanDo : All CanDo tasks
tasks-CanDo =
    (tt, ((refl, refl, refl, refl), ((response-IsWire, omega (arith, response_size)), tt)))

abbrev opt : Opt
opt = record { tracker = tracker_addr; node = some next_addr; csv = some name; delay = 0 }

abbrev person : Person
person = record { ssn = number; name = name; email = email }

abbrev open_csv : Text → Option (List (Option Person))
open_csv file = some (some person ∷ [])

abbrev begins : Client
begins = record {
  udp_wrapper = UdpWrapper.new;
  reads =
      answer_at 0 (stun_response (StunResponse.new 5)) tracker_addr (answers next_addr tasks []);
  inputs = lines tasks (typed exit_word ∷ []);
  sent = [];
  printed = [];
}

whole_session_example :
    main always open_csv 4 8004 opt begins
    ≡ ok (
      done,
      record begins {
        inputs = [];
        reads = [];
        sent =
            (tracker_addr, stun_lookup StunLookup.new)
            ∷ (next_addr, val_insert (ValInsert.new number name email))
            ∷ (next_addr, val_insert (ValInsert.new number name email))
            ∷ (next_addr, val_lookup (ValLookup.new number 5 8004))
            ∷ [];
        printed = (number, name, email) ∷ [];
      },
    )
unfolding ValLookupResponse.new
whole_session_example =
    whole_session always open_csv opt next_addr name (person ∷ []) 0 5 8004 tasks begins [] [] refl
      refl refl refl refl (omega arith) refl refl refl tasks-CanDo

abbrev silent : Client
silent = record { udp_wrapper = UdpWrapper.new; reads = []; inputs = []; sent = []; printed = [] }

main_loop_at_end_example : main_loop always 5 8004 next_addr 1000 silent ≡ stuck
main_loop_at_end_example = main_loop_at_end always 5 8004 next_addr 1000 silent refl
