-- ===== src/Node/Ownership/Splits.antt =====
-- The steps that divide the range of a node, or give it up.
use distributed_hash_table.Prelude.{ℕ, ◌<◌, ◌≡◌, List, [], ◌∷◌, All, Bool, true, ◌||◌, arith}
use distributed_hash_table.Node.Entry.{Entry, hash, hash_ssn-lt}
use distributed_hash_table.Node.Types.{Node}
use distributed_hash_table.Node.Exec.{opened}
use distributed_hash_table.Node.Util.{covers, halves, split_range, stays, transfer}
use distributed_hash_table.Node.States.{step_q4, step_q5, step_q8, step_q13, step_q18}
use distributed_hash_table.Node.Hoare.{
  Keeps, OnNode, Keeps-bind, Keeps-this, Keeps-modify, Keeps-or_fail, Keeps-reach,
}
use distributed_hash_table.Node.Triple.{Triple, Triple-bind, Triple-modify, Triple-kept}
use distributed_hash_table.Node.Frame.{
  Keeps-take_last_pdu, Keeps-connect_to_successor, Keeps-get_listen_addr, Keeps-get_successor_addr,
  Keeps-send_entries, Keeps-accept_predecessor, Keeps-await_pdu,
}
use distributed_hash_table.Node.Ownership.Sets.{
  IsOwned, Within, All-map, All-keep_if, transfer-Triple,
}

-- The end of the range is a `u8`.
abbrev pub IsOwnedU8 : Node → Type 0
IsOwnedU8 n = IsOwned n × (n.hash_range.1 < 256)

halves_cover :
    (r : ℕ × ℕ) (h : ℕ)
    → r.1 < 256
    → covers r h ≡ true
    → (covers (halves r).0 h || covers (halves r).1 h) ≡ true
unfolding halves
halves_cover (min, max) h lt c = ground arith

split-Triple : Triple (OnNode IsOwnedU8) (λ other. OnNode (Within other)) split_range
unfolding split_range opened
split-Triple = record {
  at = λ w h. All-map w.node.values (λ e c. halves_cover w.node.hash_range (hash e) h.1 c) h.0;
}

All-covers : (xs : List Entry) → All (λ e. covers (0, 255) (hash e) ≡ true) xs
All-covers [] = tt
All-covers (x ∷ xs) = (ground (arith, hash_ssn-lt x.ssn), All-covers xs)

pub Keeps-step_q4 : Keeps (OnNode IsOwned) step_q4
unfolding step_q4
Keeps-step_q4 =
    Keeps-bind _ _ _ (Keeps-modify _ _ (λ w h. All-covers w.node.values))
      λ _. Keeps-modify _ _ (λ w h. h)

pub step_q5-IsOwned : Triple (OnNode IsOwnedU8) (λ _. OnNode IsOwned) step_q5
unfolding step_q5
step_q5-IsOwned =
    Triple-bind _ _ _ (Triple-kept _ _ (Keeps-take_last_pdu IsOwnedU8 (λ n o h. h))) λ last.
      Triple-bind _ _ _ (Triple-kept _ _ (Keeps-or_fail _ _)) λ node.
        Triple-bind _ _ _ (Triple-kept _ _ (Keeps-connect_to_successor IsOwnedU8 (λ n a h. h) _))
          λ socket. Triple-bind _ _ _ split-Triple λ other.
            Triple-bind _ _ _ (Triple-kept _ _ (Keeps-get_listen_addr (Within other))) λ local.
              Triple-bind _ _ _ (Triple-kept _ _ (Keeps-this _)) λ n.
                Triple-bind _ _ _ (Triple-kept _ _ (Keeps-or_fail _ _)) λ own.
                  Triple-bind _ _ _ (Triple-kept _ _ (Keeps-reach (Within other) _ _)) λ _.
                    Triple-bind _ _ _ (Triple-kept _ _ (Keeps-modify _ _ (λ w h. h))) λ _.
                      Triple-bind _ _ _ (transfer-Triple _ _ _) λ _. Triple-kept _ _ (
                        Keeps-bind _ _ _ (Keeps-accept_predecessor IsOwned (λ n s h. h))
                          λ _. Keeps-modify _ _ (λ w h. h))

pub step_q13-IsOwned : Triple (OnNode IsOwnedU8) (λ _. OnNode IsOwned) step_q13
unfolding step_q13
step_q13-IsOwned = Triple-bind _ _ _ (Triple-kept _ _ (Keeps-get_successor_addr IsOwnedU8)) λ a.
    Triple-bind _ _ _ (Triple-kept _ _ (Keeps-this _)) λ n.
      Triple-bind _ _ _ (Triple-kept _ _ (Keeps-or_fail _ _)) λ old.
        Triple-bind _ _ _ (Triple-kept _ _ (Keeps-take_last_pdu IsOwnedU8 (λ n o h. h))) λ last.
          Triple-bind _ _ _ (Triple-kept _ _ (Keeps-or_fail _ _)) λ pdu.
            Triple-bind _ _ _ (Triple-kept _ _ (Keeps-reach IsOwnedU8 _ _)) λ _.
              Triple-bind _ _ _ (Triple-kept _ _ (Keeps-reach IsOwnedU8 _ _)) λ _.
                Triple-bind _ _ _ (Triple-kept _ _ (Keeps-modify _ _ (λ w h. h))) λ _.
                  Triple-bind _ _ _
                    (Triple-kept _ _ (Keeps-connect_to_successor IsOwnedU8 (λ n a h. h) _))
                    λ stream. Triple-bind _ _ _ (Triple-kept _ _ (Keeps-modify _ _ (λ w h. h))) λ _.
                      Triple-bind _ _ _ split-Triple λ other.
                        Triple-bind _ _ _ (Triple-kept _ _ (Keeps-reach (Within other) _ _)) λ _.
                          Triple-bind _ _ _ (transfer-Triple _ _ _)
                            λ _. Triple-kept _ _ (Keeps-modify _ _ (λ w h. h))

-- A node that joins stores nothing before it has a range.
abbrev pub IsEmpty : Node → Type 0
IsEmpty n = n.values ≡ []

IsOwned-empty : (r : ℕ × ℕ) (xs : List Entry) → xs ≡ [] → All (λ e. covers r (hash e) ≡ true) xs
IsOwned-empty r [] h = tt
IsOwned-empty r (x ∷ xs) h = cc

pub step_q8-IsOwned : Triple (OnNode IsEmpty) (λ _. OnNode IsOwned) step_q8
unfolding step_q8
step_q8-IsOwned =
    Triple-bind _ _ _ (Triple-kept _ _ (Keeps-await_pdu IsEmpty (λ n t h. h) (λ n t h. h) _)) λ m.
      Triple-bind _ _ _ (Triple-kept _ _ (Keeps-or_fail _ _)) λ pdu.
        Triple-bind _ _ _ (Triple-kept _ _ (Keeps-modify _ _ (λ w h. h))) λ _.
          Triple-bind _ _ _ (Triple-kept _ _ (Keeps-connect_to_successor IsEmpty (λ n a h. h) _))
            λ socket.
              Triple-bind _ _ _ (Triple-kept _ _ (Keeps-modify _ _ (λ w h. h)))
                λ _. Triple-modify _ _ (λ w h. IsOwned-empty w.node.hash_range w.node.values h)

Keeps-transfer_out : (b : Bool) (s e : ℕ) → Keeps (OnNode IsOwned) (transfer b s e)
unfolding transfer
Keeps-transfer_out b s e = Keeps-bind _ _ _ (Keeps-this _) λ n.
    Keeps-bind _ _ _ (Keeps-or_fail _ _) λ socket.
      Keeps-bind _ _ _ (Keeps-send_entries IsOwned _ _)
        λ _. Keeps-modify _ _ (λ w h. All-keep_if _ (stays s e) w.node.values h)

pub Keeps-step_q18 : Keeps (OnNode IsOwned) step_q18
unfolding step_q18
Keeps-step_q18 = Keeps-bind _ _ _ (Keeps-this _) λ n.
    Keeps-bind _ _ _ (Keeps-transfer_out _ _ _) λ _. Keeps-bind _ _ _ (Keeps-or_fail _ _) λ next.
      Keeps-bind _ _ _ (Keeps-reach IsOwned _ _) λ _.
        Keeps-bind _ _ _ (Keeps-reach IsOwned _ _) λ _.
          Keeps-bind _ _ _ (Keeps-or_fail _ _) λ listen. Keeps-bind _ _ _ (Keeps-or_fail _ _) λ to.
            Keeps-bind _ _ _ (Keeps-or_fail _ _) λ previous.
              Keeps-bind _ _ _ (Keeps-reach IsOwned _ _)
                λ _. Keeps-bind _ _ _ (Keeps-reach IsOwned _ _) λ _. Keeps-modify _ _ (λ w h. h)
