-- ===== src/Socket/Buffer/Drain.antt =====
-- Emptying the receive buffer.
use distributed_hash_table.Prelude.{
  ℕ, zero, suc, ◌≤◌, ◌<◌, ◌≡◌, ◌≢◌, ◌⊎◌, inl, inr, refl, ap, sym, ◌∙◌, List, [], ◌∷◌, ◌++◌, map,
  Option, none, some, Outcome, ok, panic, waits, stuck, ◌>>=◌, arith, le→ltb, length, drop,
  length-append, length-drop, All, append_assoc, drop-length_append, >>=-eq-ok,
}
use distributed_hash_table.Pdu.Message.{Pdu, to_bytes, IsWire}
use distributed_hash_table.Socket.Parse.{parse_pdu}
use distributed_hash_table.Socket.Parse.RoundTrip.{received, size, parse_pdu-to_bytes, size-length}
use distributed_hash_table.Socket.Parse.Bounds.{parse_pdu_used}
use distributed_hash_table.Socket.Parse.Ends.{Settles, parse_pdu-Settles}
use distributed_hash_table.Socket.Buffer.{drain, drain_all}

-- The four ways in which a parse can come out.
abbrev Parsed : Outcome (Option (Pdu × ℕ)) → Type 0
Parsed m = (m ≡ panic) ⊎ (m ≡ ok none) ⊎ ((p : Pdu) × (used : ℕ) × (m ≡ ok (some (p, used))))

settled : (m : Outcome (Option (Pdu × ℕ))) → Settles m → Parsed m
settled (ok none) s = inr (inl refl)
settled (ok (some (p, n))) s = inr (inr (p, n, refl))
settled panic s = inl refl
settled waits s = absurd (s.0 refl)
settled stuck s = absurd (s.1 refl)

-- The loop on the buffer that a parsed message leaves.
drain_step :
    (fuel : ℕ) (filled : List ℕ) (p : Pdu) (used : ℕ)
    → parse_pdu filled ≡ ok (some (p, used))
    → drain (suc fuel) filled ≡ (drain fuel (drop used filled) >>= λ r. ok (p ∷ r.0, r.1))
unfolding drain
drain_step fuel filled p used e =
    let (pos, le) = parse_pdu_used filled p used e in rw (e, le→ltb (length filled) used le)

bind-Settles :
    {A B : Type 0} (m : Outcome A) (f : A → B) → Settles m → Settles (m >>= λ a. ok (f a))
bind-Settles (ok a) f s = ((λ h. cc), (λ h. cc))
bind-Settles panic f s = ((λ h. cc), (λ h. cc))
bind-Settles waits f s = absurd (s.0 refl)
bind-Settles stuck f s = absurd (s.1 refl)

drain-Settles : (fuel : ℕ) (filled : List ℕ) → length filled < fuel → Settles (drain fuel filled)
drain-Settles zero filled h = absurd (omega arith)
drain-Settles (suc fuel) filled h = elim (settled (parse_pdu filled) (parse_pdu-Settles filled)) [
  | inl e ↦ unfold drain in rw e ((λ h. cc), (λ h. cc))
  | inr (inl e) ↦ unfold drain in rw e ((λ h. cc), (λ h. cc))
  | inr (inr (p, used, e)) ↦
      let (pos, le) = parse_pdu_used filled p used e in
      rw (drain_step fuel filled p used e) (
        bind-Settles (drain fuel (drop used filled)) _
          (drain-Settles fuel (drop used filled) (omega (arith, length-drop used filled))))
]

-- The loop that takes messages out of a buffer ends on every buffer, with a result or a panic: it
-- never waits and never runs out of the fuel of one round more than there are bytes.
pub drain_all_ends : (filled : List ℕ) → (drain_all filled ≢ waits) × (drain_all filled ≢ stuck)
unfolding drain_all
drain_all_ends filled = drain-Settles (suc (length filled)) filled (omega arith)

-- What the loop leaves is no whole message.
drain_leaves :
    (fuel : ℕ) (filled : List ℕ) (pdus : List Pdu) (left : List ℕ)
    → drain fuel filled ≡ ok (pdus, left)
    → (parse_pdu left ≡ ok none) × (length left ≤ length filled)
drain_leaves zero filled pdus left h = unfold drain in cc
drain_leaves (suc fuel) filled pdus left h =
    elim (settled (parse_pdu filled) (parse_pdu-Settles filled)) [
      | inl e ↦ unfold drain in ground arith
      | inr (inl e) ↦ unfold drain in ground arith
      | inr (inr (p, used, e)) ↦
          let (r, e', f) =
            >>=-eq-ok (drain fuel (drop used filled)) (λ r. ok (p ∷ r.0, r.1))
              (sym (drain_step fuel filled p used e) ∙ h) in
          let ih = drain_leaves fuel (drop used filled) r.0 r.1 e' in
          let g : r.1 ≡ left = ground arith in
          (rw g at ih.0, omega (arith, ih.1, ap length g, length-drop used filled))
    ]

abbrev pub concat : List Pdu → List ℕ
concat [] = []
concat (p ∷ ps) = to_bytes p ++ concat ps

drain-concat :
    (fuel : ℕ) (ps : List Pdu) (tail : List ℕ)
    → All IsWire ps
    → parse_pdu tail ≡ ok none
    → length (concat ps ++ tail) < fuel
    → drain fuel (concat ps ++ tail) ≡ ok (map received ps, tail)
drain-concat zero ps tail w t h = absurd (omega arith)
drain-concat (suc fuel) [] tail w t h = unfold drain in rw t
drain-concat (suc fuel) (p ∷ ps) tail w t h =
    let rest : List ℕ = concat ps ++ tail in
    let e = parse_pdu-to_bytes p rest w.0 in
    let (pos, le) = parse_pdu_used (to_bytes p ++ rest) (received p) (size p) e in
    let shape = append_assoc (to_bytes p) (concat ps) tail in
    rw (
      shape,
      drain_step fuel (to_bytes p ++ rest) (received p) (size p) e,
      size-length p w.0,
      drop-length_append (to_bytes p) rest,
      drain-concat fuel ps tail w.1 t
          (omega (arith, ap length shape, length-append (to_bytes p) rest, size-length p w.0)),
    )

-- From the bytes of any number of well-formed messages and a tail in which the parser finds none,
-- the loop takes out those messages in their order and leaves the tail.
pub drain_all-concat :
    (ps : List Pdu) (tail : List ℕ)
    → All IsWire ps
    → parse_pdu tail ≡ ok none
    → drain_all (concat ps ++ tail) ≡ ok (map received ps, tail)
unfolding drain_all
drain_all-concat ps tail w t = drain-concat _ ps tail w t (omega arith)

-- When that loop returns, the parser finds no further message in what it left in the buffer, and
-- that is no longer than the buffer was.
pub drain_all_leaves :
    (filled : List ℕ) (pdus : List Pdu) (left : List ℕ)
    → drain_all filled ≡ ok (pdus, left)
    → (parse_pdu left ≡ ok none) × (length left ≤ length filled)
unfolding drain_all
drain_all_leaves filled pdus left h = drain_leaves _ filled pdus left h
