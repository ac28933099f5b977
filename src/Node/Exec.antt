-- ===== src/Node/Exec.antt =====
-- The methods of `Node` as actions: they change the world, and may panic or wait.
use distributed_hash_table.Prelude.{
  [], ◌∷◌, ◌++◌, Option, none, some, if◌then◌else◌, Outcome, ok, panic,
}
use distributed_hash_table.Prelude.{◌>>=◌ as and_then}
use distributed_hash_table.Pdu.Message.{Pdu}
use distributed_hash_table.Pdu.SocketAddr.{SocketAddr}
use distributed_hash_table.Node.Types.{
  Node, World, State, Stream, Output, udp_sent, tcp_sent, shut_down,
}

abbrev pub Exec : Type 0 → Type 0
Exec A = World → Outcome (A × World)

unfoldable pub pure : {A : Type 0} → A → Exec A
pure a w = ok (a, w)

unfoldable pub fail : {A : Type 0} → Exec A
fail w = panic

infixl 5 ◌>>=◌ ◌>>◌
unfoldable pub ◌>>=◌ : {A B : Type 0} → Exec A → (A → Exec B) → Exec B
◌>>=◌ m f w = and_then (m w) (λ r. f r.0 r.1)

abbrev pub ◌>>◌ : {B : Type 0} → Exec (Unit {0}) → Exec B → Exec B
m >> k = m >>= λ _. k

unfoldable pub this : Exec Node
this w = ok (w.node, w)

unfoldable pub world : Exec World
world w = ok (w, w)

unfoldable pub modify : (Node → Node) → Exec (Unit {0})
modify f w = ok (tt, record w { node = f w.node })

abbrev pub become : State → Exec (Unit {0})
become s = modify λ n. record n { state = s }

-- `unwrap`
unfoldable pub or_fail : {A : Type 0} → Option A → Exec A
unfolding pure fail
or_fail none = fail
or_fail (some a) = pure a

unfoldable pub log : Output → Exec (Unit {0})
log o w = ok (tt, record w { sent = w.sent ++ (o ∷ []) })

-- An operation on a socket that panics where the other end cannot be reached.
unfoldable pub reach : SocketAddr → Output → Exec (Unit {0})
unfolding log
reach addr o w = if w.reachable addr then log o w else panic

abbrev pub udp_send : Pdu → SocketAddr → Exec (Unit {0})
udp_send pdu addr = reach addr (udp_sent addr pdu)

abbrev pub tcp_send : Stream → Pdu → Exec (Unit {0})
tcp_send s pdu = reach s.peer_addr (tcp_sent s pdu)

abbrev pub shutdown : Stream → Exec (Unit {0})
shutdown s = reach s.peer_addr (shut_down s)

-- The line under this signature opens all actions: a proof that runs code unfolds `opened`.
unfoldable pub opened : Exec (Unit {0})
unfolding pure fail ◌>>=◌ this world modify or_fail log reach
opened = pure tt
