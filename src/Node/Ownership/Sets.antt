-- ===== src/Node/Ownership/Sets.antt =====
-- The predicates of ownership, and the steps that only add to or drop from the entries.
use distributed_hash_table.Prelude.{
  ℕ, ◌≡◌, inl, inr, List, [], ◌∷◌, ◌++◌, Bool, true, not, ◌||◌, arith, keep_if, All, Bool-cases,
}
use distributed_hash_table.Pdu.Text.{text_eq}
use distributed_hash_table.Pdu.ValInsert.{ValInsertPdu}
use distributed_hash_table.Pdu.ValRemove.{ValRemovePdu}
use distributed_hash_table.Pdu.Message.{Pdu, val_insert, val_remove, val_lookup}
use distributed_hash_table.Node.Entry.{Entry, hash, new}
use distributed_hash_table.Node.Types.{Node}
use distributed_hash_table.Node.Util.{covers, stays, transfer, in_my_range}
use distributed_hash_table.Node.Values.{handle_val_insert, handle_val_remove}
use distributed_hash_table.Node.States.{value_operation}
use distributed_hash_table.Node.Hoare.{Keeps, OnNode, Keeps-this, Keeps-fail, Keeps-or_fail}
use distributed_hash_table.Node.Triple.{
  Triple, Triple-bind, Triple-this, Triple-if, Triple-modify, Triple-kept, Triple-weaken,
  Triple-Keeps,
}
use distributed_hash_table.Node.Frame.{Keeps-forward, Keeps-handle_val_lookup, Keeps-send_entries}
use mathlib.Core.Path.{subst}

-- Every entry of the node has its hash in the node's range.
abbrev pub IsOwned : Node → Type 0
IsOwned n = All (λ e. covers n.hash_range (hash e) ≡ true) n.values

-- Every entry has its hash in the node's range or in `r`.
abbrev pub Within : ℕ × ℕ → Node → Type 0
Within r n = All (λ e. (covers n.hash_range (hash e) || covers r (hash e)) ≡ true) n.values

module _ {P Q : Entry → Type 0} where
  pub All-map : (xs : List Entry) → ((e : Entry) → P e → Q e) → All P xs → All Q xs
  All-map [] f h = tt
  All-map (x ∷ xs) f h = (f x h.0, All-map xs f h.1)

module _ (P : Entry → Type 0) where
  pub All-append : (xs ys : List Entry) → All P xs → All P ys → All P (xs ++ ys)
  All-append [] ys h k = k
  All-append (x ∷ xs) ys h k = (h.0, All-append xs ys h.1 k)

  pub All-keep_if : (test : Entry → Bool) (xs : List Entry) → All P xs → All P (keep_if test xs)
  All-keep_if test [] h = tt
  All-keep_if test (x ∷ xs) h = elim (Bool-cases (test x)) [
    | inl e ↦ rw e (h.0, All-keep_if test xs h.1)
    | inr e ↦ rw e (All-keep_if test xs h.1)
  ]

  pub All-keep_if_test :
      {R : Entry → Type 0} (test : Entry → Bool) (xs : List Entry)
      → ((e : Entry) → P e → test e ≡ true → R e)
      → All P xs
      → All R (keep_if test xs)
  All-keep_if_test test [] f h = tt
  All-keep_if_test test (x ∷ xs) f h = elim (Bool-cases (test x)) [
    | inl e ↦ rw e (f x h.0 e, All-keep_if_test test xs f h.1)
    | inr e ↦ rw e (All-keep_if_test test xs f h.1)
  ]

insert-Triple :
    (p : ValInsertPdu) → Triple (OnNode IsOwned) (λ _. OnNode IsOwned) (handle_val_insert p)
unfolding handle_val_insert
insert-Triple p = Triple-bind _ _ _ (Triple-this _) λ n.
    Triple-if _ (in_my_range n p.ssn) _ _
      (λ here. Triple-modify _ _ (λ w h.
        All-append _ w.node.values (new p.ssn p.name p.email ∷ []) h.0
          (subst (λ (m : Node). in_my_range m p.ssn ≡ true) h.1 here, tt)))
      (λ there.
        Triple-weaken _ (OnNode IsOwned) _ (λ w h. h.0) (Triple-kept _ _ (Keeps-forward IsOwned _)))

pub Keeps-insert : (p : ValInsertPdu) → Keeps (OnNode IsOwned) (handle_val_insert p)
Keeps-insert p = Triple-Keeps _ _ (insert-Triple p)

remove-Triple :
    (p : ValRemovePdu) → Triple (OnNode IsOwned) (λ _. OnNode IsOwned) (handle_val_remove p)
unfolding handle_val_remove
remove-Triple p = Triple-bind _ _ _ (Triple-this _) λ n.
    Triple-if _ (in_my_range n p.ssn) _ _
      (λ here.
        Triple-modify _ _ (λ w h. All-keep_if _ (λ e. not (text_eq e.ssn p.ssn)) w.node.values h.0))
      (λ there.
        Triple-weaken _ (OnNode IsOwned) _ (λ w h. h.0) (Triple-kept _ _ (Keeps-forward IsOwned _)))

pub Keeps-remove : (p : ValRemovePdu) → Keeps (OnNode IsOwned) (handle_val_remove p)
Keeps-remove p = Triple-Keeps _ _ (remove-Triple p)

pub Keeps-value_operation : (p : Pdu) → Keeps (OnNode IsOwned) (value_operation p)
unfolding value_operation
Keeps-value_operation (val_insert p) = Keeps-insert p
Keeps-value_operation (val_remove p) = Keeps-remove p
Keeps-value_operation (val_lookup p) = Keeps-handle_val_lookup IsOwned p
Keeps-value_operation _ = Keeps-fail _

-- A transfer of a range leaves the entries that are owned, if all others had their hash in `r`.
pub transfer-Triple :
    (b : Bool) (s e : ℕ) → Triple (OnNode (Within (s, e))) (λ _. OnNode IsOwned) (transfer b s e)
unfolding transfer
transfer-Triple b s e = Triple-bind _ _ _ (Triple-kept _ _ (Keeps-this _)) λ n.
    Triple-bind _ _ _ (Triple-kept _ _ (Keeps-or_fail _ _)) λ socket.
      Triple-bind _ _ _ (Triple-kept _ _ (Keeps-send_entries (Within (s, e)) _ _)) λ _.
        Triple-modify _ _
          (λ w h. All-keep_if_test _ (stays s e) w.node.values (λ x k t. ground (arith, k, t)) h)
