-- ===== src/Node/Store.antt =====
-- The value operations of a node, seen as operations on a list of entries.
use distributed_hash_table.Prelude.{
  ◌≡◌, ◌≢◌, refl, ap, Option, length, All, Bool-cases, inl, inr, List, [], ◌∷◌, ◌++◌, none, some,
  true, false, not, ok, arith, if◌then◌else◌, keep_if,
}
use distributed_hash_table.Pdu.Text.{Text, text_eq, text_eq_iff}
use distributed_hash_table.Pdu.SocketAddr.{v4}
use distributed_hash_table.Pdu.ValInsert.{ValInsertPdu}
use distributed_hash_table.Pdu.ValRemove.{ValRemovePdu}
use distributed_hash_table.Pdu.ValLookup.{ValLookupPdu}
use distributed_hash_table.Pdu.ValLookupResponse
use distributed_hash_table.Pdu.ValLookupResponse.{ValLookupResponsePdu}
use distributed_hash_table.Pdu.Message.{val_insert, val_remove, val_lookup, val_lookup_response}
use distributed_hash_table.Node.Entry.{Entry, new}
use distributed_hash_table.Node.Types.{World, udp_sent}
use distributed_hash_table.Node.Exec.{opened}
use distributed_hash_table.Node.Util.{in_my_range}
use distributed_hash_table.Node.Values.{
  forward, find, response, handle_val_insert, handle_val_lookup, handle_val_remove,
}

pub find-append :
    (ssn : Text) (xs : List Entry) (e : Entry)
    → find ssn (xs ++ e ∷ [])
      ≡ (let old = find ssn xs in elim old [ some x ↦ some x | none ↦ find ssn (e ∷ []) ])
find-append ssn [] e = refl
find-append ssn (x ∷ xs) e = ground (arith, find-append ssn xs e)

pub find-keep_if :
    (ssn gone : Text) (xs : List Entry)
    → find ssn (keep_if (λ e. not (text_eq e.ssn gone)) xs)
      ≡ (if text_eq gone ssn then none else find ssn xs)
find-keep_if ssn gone [] = ground arith
find-keep_if ssn gone (x ∷ xs) = ground (
  arith,
  text_eq_iff x.ssn gone,
  text_eq_iff x.ssn ssn,
  text_eq_iff gone ssn,
  find-keep_if ssn gone xs,
)

-- For a number outside the range of the node, each of VAL_INSERT, VAL_REMOVE and VAL_LOOKUP does
-- what forwarding the same message to the successor does.
forwards :
    (w : World)
    → ((p : ValInsertPdu)
        → in_my_range w.node p.ssn ≡ false
        → handle_val_insert p w ≡ forward (val_insert p) w)
      × ((p : ValRemovePdu)
          → in_my_range w.node p.ssn ≡ false
          → handle_val_remove p w ≡ forward (val_remove p) w)
      × ((p : ValLookupPdu)
          → in_my_range w.node p.ssn ≡ false
          → handle_val_lookup p w ≡ forward (val_lookup p) w)
unfolding handle_val_insert handle_val_remove handle_val_lookup opened
forwards w = ((λ p h. rw h), (λ p h. rw h), (λ p h. rw h))

-- After a VAL_INSERT whose number is in the range of the node, a search for any number gives the
-- entry that it gave before, if it gave one; else the new entry, if its number is the one searched
-- for; else none. The insertion returns and sends nothing.
pub insert_then_find :
    (w : World) (p : ValInsertPdu)
    → in_my_range w.node p.ssn ≡ true
    → (v : World) × (handle_val_insert p w ≡ ok (tt, v))
      × ((ssn : Text)
          → find ssn v.node.values ≡ (
              let old = find ssn w.node.values in
              elim old [
                | some x ↦ some x
                | none ↦ if text_eq p.ssn ssn then some (new p.ssn p.name p.email) else none
              ]))
      × (v.sent ≡ w.sent)
unfolding handle_val_insert opened
insert_then_find w p h = (
  record w { node = record (w.node) { values = w.node.values ++ new p.ssn p.name p.email ∷ [] } },
  rw h,
  (λ ssn. find-append ssn w.node.values (new p.ssn p.name p.email)),
  refl,
)

-- After a VAL_REMOVE whose number is in the range of the node, a search finds nothing under that
-- number and under every other number what it found before. The removal returns and sends nothing.
pub remove_then_find :
    (w : World) (p : ValRemovePdu)
    → in_my_range w.node p.ssn ≡ true
    → (v : World) × (handle_val_remove p w ≡ ok (tt, v))
      × ((ssn : Text)
          → find ssn v.node.values ≡ (if text_eq p.ssn ssn then none else find ssn w.node.values))
      × (v.sent ≡ w.sent)
unfolding handle_val_remove opened
remove_then_find w p h = (
  record w {
    node = record (w.node) { values = keep_if (λ e. not (text_eq e.ssn p.ssn)) w.node.values };
  },
  rw h,
  (λ ssn. find-keep_if ssn p.ssn w.node.values),
  refl,
)

-- `o` is the first of the entries under `ssn`, if there is one.
abbrev pub IsFirst : Text → List Entry → Option Entry → Type 0
IsFirst ssn es (some e) =
    (before after : List Entry) × (es ≡ before ++ e ∷ after)
    × (e.ssn ≡ ssn)
    × All (λ x. x.ssn ≢ ssn) before
IsFirst ssn es none = All (λ x. x.ssn ≢ ssn) es

IsFirst-cons :
    (ssn : Text) (x : Entry) (es : List Entry) (o : Option Entry)
    → x.ssn ≢ ssn
    → IsFirst ssn es o
    → IsFirst ssn (x ∷ es) o
IsFirst-cons ssn x es (some e) n (before, after, p, s, b) =
    (x ∷ before, after, ap (x ∷◌) p, s, (n, b))
IsFirst-cons ssn x es none n b = (n, b)

pub find-IsFirst : (ssn : Text) (es : List Entry) → IsFirst ssn es (find ssn es)
find-IsFirst ssn [] = tt
find-IsFirst ssn (x ∷ es) = elim (Bool-cases (text_eq x.ssn ssn)) [
  | inl t ↦ rw t ([], es, refl, (text_eq_iff x.ssn ssn).0 t, tt)
  | inr t ↦ rw t (
      IsFirst-cons ssn x es (find ssn es) (λ e. absurd (ground (arith, text_eq_iff x.ssn ssn)))
        (find-IsFirst ssn es))
]

-- The answer for an entry has its texts; that for none has a number of twelve characters `0`.
abbrev pub IsAnswer : Option Entry → ValLookupResponsePdu → Type 0
IsAnswer (some e) r = (r.ssn ≡ e.ssn) × (r.name ≡ e.name) × (r.email ≡ e.email)
IsAnswer none r = (length r.ssn ≡ 12) × All (λ c. c ≡ 48) r.ssn × (r.name ≡ []) × (r.email ≡ [])

response-IsAnswer : (o : Option Entry) → IsAnswer o (response o)
unfolding ValLookupResponse.new
response-IsAnswer (some e) = (refl, refl, refl)
response-IsAnswer none = (
  refl,
  (
    refl,
    (refl, (refl, (refl, (refl, (refl, (refl, (refl, (refl, (refl, (refl, (refl, tt))))))))))),
  ),
  refl,
  refl,
)

-- A VAL_LOOKUP whose number is in the range of the node is answered over UDP to the address inside
-- the message, if that can be reached: with number, name and email address of the entry that comes
-- first among those of the node with that number, or, if no entry has it, with a number of twelve
-- characters 0, an empty name and an empty email address; nothing else is sent and the node stays
-- as it was.
pub lookup_answers :
    (w : World) (p : ValLookupPdu)
    → in_my_range w.node p.ssn ≡ true
    → w.reachable (v4 p.sender_address p.sender_port) ≡ true
    → (o : Option Entry) × (r : ValLookupResponsePdu) × IsFirst p.ssn w.node.values o
      × IsAnswer o r
      × (handle_val_lookup p w
          ≡ ok (
            tt,
            record w {
              sent =
                  w.sent
                  ++ udp_sent (v4 p.sender_address p.sender_port) (val_lookup_response r) ∷ [];
            },
          ))
unfolding handle_val_lookup opened
lookup_answers w p h r =
    let o = find p.ssn w.node.values in
    (o, response o, find-IsFirst p.ssn w.node.values, response-IsAnswer o, rw (h, r) refl)
