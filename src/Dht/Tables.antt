-- ===== src/Dht/Tables.antt =====
-- The table of a ring does not change where ranges and entries move between neighbours.
use distributed_hash_table.Prelude.{
  ℕ, ◌+◌, ◌≤◌, ◌<◌, ◌≡◌, refl, sym, ap, ◌∙◌, List, [], ◌∷◌, ◌++◌, Option, none, some, Bool, true,
  false, ◌||◌, ◌&&◌, ◌⊎◌, ltb, arith, Bool-cases, inl, inr, All, keep_if,
}
use mathlib.Core.Path.{subst}
use distributed_hash_table.Node.Ranges.{halves_partition}
use distributed_hash_table.Pdu.Text.{Text, text_eq, text_eq_iff}
use distributed_hash_table.Node.Entry.{Entry, hash, hash_ssn}
use distributed_hash_table.Node.Types.{World}
use distributed_hash_table.Node.Util.{covers, moves, stays, halves}
use distributed_hash_table.Node.Values.{find}
use distributed_hash_table.Node.Ownership.Sets.{IsOwned}
use distributed_hash_table.Dht.Routing.{table}

abbrev or_else : Option Entry → Option Entry → Option Entry
or_else (some x) y = some x
or_else none y = y

or_else-none : (x : Option Entry) → or_else x none ≡ x
or_else-none none = refl
or_else-none (some x) = refl

find-both :
    (ssn : Text) (xs ys : List Entry) → find ssn (xs ++ ys) ≡ or_else (find ssn xs) (find ssn ys)
find-both ssn [] ys = refl
find-both ssn (x ∷ xs) ys = ground (arith, find-both ssn xs ys)

-- Entries with their hashes in a range have no number outside it.
find-outside :
    (r : ℕ × ℕ) (ssn : Text) (es : List Entry)
    → All (λ e. covers r (hash e) ≡ true) es
    → covers r (hash_ssn ssn) ≡ false
    → find ssn es ≡ none
find-outside r ssn [] o c = refl
find-outside r ssn (e ∷ es) o c = elim (Bool-cases (text_eq e.ssn ssn)) [
  | inl t ↦
      let same : covers r (hash e) ≡ covers r (hash_ssn ssn) =
        ap (λ s. covers r (hash_ssn s)) ((text_eq_iff e.ssn ssn).0 t) in
      absurd (clash (covers r (hash_ssn ssn)) (sym same ∙ o.0) c)
  | inr f ↦ rw f (find-outside r ssn es o.1 c)
]
  where
    clash : (b : Bool) → b ≡ true → ¬ (b ≡ false)
    clash b t f = cc

-- A test of the hash that the number passes keeps what is under the number.
find-kept :
    (test : ℕ → Bool) (ssn : Text) (es : List Entry)
    → test (hash_ssn ssn) ≡ true
    → find ssn (keep_if (λ e. test (hash e)) es) ≡ find ssn es
find-kept test ssn [] t = refl
find-kept test ssn (e ∷ es) t = elim (Bool-cases (text_eq e.ssn ssn)) [
  | inl s ↦
      let kept : test (hash e) ≡ true =
        ap (λ x. test (hash_ssn x)) ((text_eq_iff e.ssn ssn).0 s) ∙ t in
      rw (s, kept) (rw s refl)
  | inr f ↦ elim (Bool-cases (test (hash e))) [
    | inl k ↦ rw (f, k) (rw f (find-kept test ssn es t))
    | inr k ↦ rw (f, k) (find-kept test ssn es t)
  ]
]

pub table-before :
    (before xs ys : List World) (ssn : Text)
    → table xs ssn ≡ table ys ssn
    → table (before ++ xs) ssn ≡ table (before ++ ys) ssn
table-before [] xs ys ssn e = e
table-before (b ∷ before) xs ys ssn e = rw (table-before before xs ys ssn e) refl

joined :
    (a b c d h : ℕ)
    → c ≡ b + 1
    → a ≤ b
    → c ≤ d
    → covers (a, d) h ≡ (covers (a, b) h || covers (c, d) h)
joined a b c d h e l m = ground arith

apart : (a b c d h : ℕ) → c ≡ b + 1 → covers (a, b) h ≡ true → covers (c, d) h ≡ false
apart a b c d h e t = ground arith

-- A node that has the ranges and the entries of two neighbours.
pub table-merged :
    (h w v : World) (after : List World) (ssn : Text)
    → IsOwned h.node
    → IsOwned w.node
    → w.node.hash_range.0 ≡ h.node.hash_range.1 + 1
    → h.node.hash_range.0 ≤ h.node.hash_range.1
    → w.node.hash_range.0 ≤ w.node.hash_range.1
    → v.node.hash_range ≡ (h.node.hash_range.0, w.node.hash_range.1)
    → v.node.values ≡ h.node.values ++ w.node.values
    → table (v ∷ after) ssn ≡ table (h ∷ w ∷ after) ssn
table-merged h w v after ssn oh ow adjacent lh lw r e =
    let key = hash_ssn ssn in
    let all =
      joined h.node.hash_range.0 h.node.hash_range.1 w.node.hash_range.0 w.node.hash_range.1 key
        adjacent lh lw in
    let both = find-both ssn h.node.values w.node.values in
    elim (Bool-cases (covers h.node.hash_range key)) [
      | inl c ↦
          let other =
            apart h.node.hash_range.0 h.node.hash_range.1 w.node.hash_range.0 w.node.hash_range.1
              key adjacent c in
          rw (r, e, all, c, both, find-outside w.node.hash_range ssn w.node.values ow other)
            (or_else-none (find ssn h.node.values))
      | inr c ↦ elim (Bool-cases (covers w.node.hash_range key)) [
        | inl d ↦
            rw (r, e, all, c, d, both, find-outside h.node.hash_range ssn h.node.values oh c) refl
        | inr d ↦ rw (r, all, c, d) refl
      ]
    ]

outside-stays : (r : ℕ × ℕ) (h : ℕ) → covers r h ≡ false → (ltb h r.0 || ltb r.1 h) ≡ true
outside-stays (min, max) h c = ground arith

-- Two nodes that share the range and the entries of one.
pub table-split :
    (w v j : World) (after : List World) (ssn : Text)
    → w.node.hash_range.0 ≤ w.node.hash_range.1
    → w.node.hash_range.1 < 256
    → (w.node.hash_range.0 < w.node.hash_range.1) ⊎ (w.node.hash_range.1 < 255)
    → v.node.hash_range ≡ (halves w.node.hash_range).0
    → j.node.hash_range ≡ (halves w.node.hash_range).1
    → v.node.values
      ≡ keep_if (stays (halves w.node.hash_range).1.0 (halves w.node.hash_range).1.1) w.node.values
    → j.node.values
      ≡ keep_if (moves (halves w.node.hash_range).1.0 (halves w.node.hash_range).1.1) w.node.values
    → table (v ∷ j ∷ after) ssn ≡ table (w ∷ after) ssn
table-split w v j after ssn le lt wide rv rj ev ej =
    let key = hash_ssn ssn in
    let own = (halves w.node.hash_range).0 in
    let other = (halves w.node.hash_range).1 in
    let (both, never) = halves_partition w.node.hash_range.0 w.node.hash_range.1 key le lt wide in
    elim (Bool-cases (covers own key)) [
      | inl c ↦
          let outside : covers other key ≡ false =
            subst (λ b. (b && covers other key) ≡ false) c never in
          rw (rv, ev, both, c)
            (find-kept (λ h. ltb h other.0 || ltb other.1 h) ssn w.node.values
              (outside-stays other key outside))
      | inr c ↦ elim (Bool-cases (covers other key)) [
        | inl d ↦ rw (rv, rj, ej, both, c, d) (find-kept (covers other) ssn w.node.values d)
        | inr d ↦ rw (rv, rj, both, c, d) refl
      ]
    ]
