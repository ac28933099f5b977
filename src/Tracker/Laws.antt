-- ===== src/Tracker/Laws.antt =====
-- The map of the tracker, and what it answers.
use distributed_hash_table.Prelude.{
  ℕ, ◌-◌, ◌/◌, ◌^◌, ◌≡◌, inl, inr, refl, ap, ◌∙◌, List, [], ◌∷◌, Option, none, some, ltb,
  if◌then◌else◌, arith, keep_if, Bool-cases,
}
use distributed_hash_table.Pdu.SocketAddr.{SocketAddr, addr_eq, addr_eq_iff}
use mathlib.Core.Path.{subst}
use distributed_hash_table.Tracker.{Known, touch, is_fresh}

-- When the tracker last heard of an address.
abbrev pub heard : SocketAddr → List Known → Option ℕ
heard a [] = none
heard a (k ∷ ks) = if addr_eq k.address a then some k.last_alive else heard a ks

-- No address is in the list twice, as keys of a map.
abbrev pub Distinct : List Known → Type 0
Distinct [] = Unit {0}
Distinct (k ∷ ks) = (heard k.address ks ≡ none) × Distinct ks

-- After a NET_ALIVE the map gives the time under the sender of it, and under every other address
-- what it gave before.
pub touch_lem :
    (a sender : SocketAddr) (now : ℕ) (ks : List Known)
    → heard a (touch sender now ks) ≡ (if addr_eq sender a then some now else heard a ks)
touch_lem a sender now [] = refl
touch_lem a sender now (k ∷ ks) = ground (
  arith,
  addr_eq_iff k.address sender,
  addr_eq_iff k.address a,
  addr_eq_iff sender a,
  touch_lem a sender now ks,
)

pub touch-Distinct :
    (sender : SocketAddr) (now : ℕ) (ks : List Known) → Distinct ks → Distinct (touch sender now ks)
touch-Distinct sender now [] d = (refl, tt)
touch-Distinct sender now (k ∷ ks) d = elim (Bool-cases (addr_eq k.address sender)) [
  | inl e ↦ rw e d
  | inr e ↦ rw e (
    ground (
      arith,
      touch_lem k.address sender now ks,
      addr_eq_iff k.address sender,
      addr_eq_iff sender k.address,
      d,
    ),
    touch-Distinct sender now ks d.1,
  )
]

-- Dropping keeps an address that was heard of within the timeout with its time, and forgets the rest.
abbrev pub kept : ℕ → ℕ → Option ℕ → Option ℕ
kept timeout now none = none
kept timeout now (some t) = if ltb ((now - t) / 10 ^ 9) timeout then some t else none

fresh_lem :
    (timeout now : ℕ) (k : Known)
    → is_fresh timeout now k ≡ ltb ((now - k.last_alive) / 10 ^ 9) timeout
fresh_lem timeout now k = ground arith

pub drop_lem :
    (timeout now : ℕ) (a : SocketAddr) (ks : List Known)
    → Distinct ks
    → heard a (keep_if (is_fresh timeout now) ks) ≡ kept timeout now (heard a ks)
drop_lem timeout now a [] d = refl
drop_lem timeout now a (k ∷ ks) d =
    let rest = drop_lem timeout now a ks d.1 in
    elim (Bool-cases (addr_eq k.address a)) [
      | inl e ↦
          let unheard = subst (λ b. heard b ks ≡ none) ((addr_eq_iff k.address a).0 e) d.0 in
          ground (arith, rest, unheard, e)
      | inr e ↦ ground (arith, rest, e)
    ]

pub drop-Distinct :
    (timeout now : ℕ) (ks : List Known) → Distinct ks → Distinct (keep_if (is_fresh timeout now) ks)
drop-Distinct timeout now [] d = tt
drop-Distinct timeout now (k ∷ ks) d = elim (Bool-cases (is_fresh timeout now k)) [
  | inl e ↦ rw e (
    drop_lem timeout now k.address ks d.1 ∙ ap (kept timeout now) d.0,
    drop-Distinct timeout now ks d.1,
  )
  | inr e ↦ rw e (drop-Distinct timeout now ks d.1)
]
