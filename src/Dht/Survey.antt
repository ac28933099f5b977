-- ===== src/Dht/Survey.antt =====
-- What a NET_JOIN finds out on its way along the places of a ring.
use distributed_hash_table.Prelude.{
  ◌≤◌, ◌<◌, ◌≡◌, refl, sym, ap, ◌∙◌, List, [], ◌∷◌, true, false, arith, ltb, ◌⊎◌, inl, inr, Bool,
  Bool-cases, All, ltb→lt,
}
use mathlib.Core.Path.{subst}
use distributed_hash_table.Pdu.SocketAddr.{SocketAddr, v4, v6, addr_eq, addr_eq_iff}
use distributed_hash_table.Pdu.NetJoin
use distributed_hash_table.Pdu.NetJoin.{NetJoinPdu}
use distributed_hash_table.Dht.Asking.{Place, span, widened}

abbrev pub survey : List Place → NetJoinPdu → NetJoinPdu
survey [] p = p
survey (a ∷ rest) p = survey rest (widened a p)

-- No place has the address that the message names when it comes there.
abbrev pub Passes : List Place → NetJoinPdu → Type 0
Passes [] p = Unit {0}
Passes (a ∷ rest) p =
    (addr_eq a.0 (NetJoin.get_max_socket_addr p) ≡ false) × Passes rest (widened a p)

-- The places before one that the message names leave the message as it is.
pub data Stops : List Place → NetJoinPdu → Type 0 where
  here :
      {a : Place} {rest : List Place} {p : NetJoinPdu}
      → a.0 ≡ NetJoin.get_max_socket_addr p
      → span a ≡ p.max_span
      → Stops (a ∷ rest) p
  further :
      {a : Place} {rest : List Place} {p : NetJoinPdu}
      → addr_eq a.0 (NetJoin.get_max_socket_addr p) ≡ false
      → widened a p ≡ p
      → Stops rest p
      → Stops (a ∷ rest) p

-- Another address at every place.
abbrev pub Elsewhere : SocketAddr → List Place → Type 0
Elsewhere addr = All (λ a. addr_eq a.0 addr ≡ false)

abbrev pub Distinct : List Place → Type 0
Distinct [] = Unit {0}
Distinct (a ∷ rest) = Elsewhere a.0 rest × Distinct rest

widened-cases :
    (a : Place) (p : NetJoinPdu)
    → ((span a ≤ p.max_span) × (widened a p ≡ p))
      ⊎ ((p.max_span < span a)
          × ((widened a p).max_span ≡ span a)
          × (a.0 ≡ NetJoin.get_max_socket_addr (widened a p)))
unfolding NetJoin.get_max_socket_addr
widened-cases (v6 ip port, r) p = inl (omega arith, refl)
widened-cases (v4 ip port, (min, max)) p =
    elim (Bool-cases (ltb p.max_span (span (v4 ip port, (min, max))))) [
      | inl e ↦ inr (ltb→lt _ _ e, rw e refl, rw e refl)
      | inr e ↦ inl (ground arith, rw e refl)
    ]

widened-same : (a : Place) (p : NetJoinPdu) → span a ≤ p.max_span → widened a p ≡ p
widened-same a p le = elim (widened-cases a p) [
  | inl (le, e) ↦ e
  | inr (lt, e, n) ↦ absurd (omega arith)
]

survey-grows : (rest : List Place) (p : NetJoinPdu) → p.max_span ≤ (survey rest p).max_span
survey-grows [] p = omega arith
survey-grows (a ∷ rest) p = elim (widened-cases a p) [
  | inl (le, e) ↦
      omega (arith, survey-grows rest (widened a p), ap (λ (q : NetJoinPdu). q.max_span) e)
  | inr (lt, e, n) ↦ omega (arith, survey-grows rest (widened a p))
]

widened-src :
    (a : Place) (p : NetJoinPdu)
    → NetJoin.get_src_socket_addr (widened a p) ≡ NetJoin.get_src_socket_addr p
unfolding NetJoin.get_src_socket_addr
widened-src (v6 ip port, r) p = refl
widened-src (v4 ip port, (min, max)) p =
    elim (Bool-cases (ltb p.max_span (span (v4 ip port, (min, max))))) [
      | inl e ↦ rw e refl
      | inr e ↦ rw e refl
    ]

-- Nothing of the sender changes.
pub survey-src :
    (rest : List Place) (p : NetJoinPdu)
    → NetJoin.get_src_socket_addr (survey rest p) ≡ NetJoin.get_src_socket_addr p
survey-src [] p = refl
survey-src (a ∷ rest) p = survey-src rest (widened a p) ∙ widened-src a p

-- A place apart from all of `as` is not the one that a message names at which they stop.
Stops-apart :
    (rest : List Place) (a : Place) (p : NetJoinPdu)
    → Stops rest p
    → Elsewhere a.0 rest
    → addr_eq a.0 (NetJoin.get_max_socket_addr p) ≡ false
Stops-apart [] a p x n = elim x [ ]
Stops-apart (b ∷ bs) a p (here e s) n =
    elim (Bool-cases (addr_eq a.0 (NetJoin.get_max_socket_addr p))) [
      | inl t ↦
          let same : a.0 ≡ b.0 = (addr_eq_iff a.0 (NetJoin.get_max_socket_addr p)).0 t ∙ sym e in
          absurd (clash (addr_eq b.0 a.0) ((addr_eq_iff b.0 a.0).1 (sym same)) n.0)
      | inr f ↦ f
    ]
  where
    clash : (b : Bool) → b ≡ true → ¬ (b ≡ false)
    clash b t f = cc
Stops-apart (b ∷ bs) a p (further x e s) n = Stops-apart bs a p s n.1

-- Where the survey of places with distinct addresses ends: the message is as before, and no place has
-- a wider range than it names; or the first place with the widest range stops it the next time.
pub record Surveyed (rest : List Place) (p q : NetJoinPdu) : Type 0 where
  pub widest : All (λ a. span a ≤ q.max_span) rest
  pub chosen : (q ≡ p) ⊎ Stops rest q

pub survey-Surveyed :
    (rest : List Place) (p : NetJoinPdu) → Distinct rest → Surveyed rest p (survey rest p)
survey-Surveyed [] p d = record { widest = tt; chosen = inl refl }
survey-Surveyed (a ∷ rest) p d =
    let s = survey-Surveyed rest (widened a p) d.1 in
    let grows = survey-grows rest (widened a p) in
    let bounded : span a ≤ (survey rest (widened a p)).max_span = elim (widened-cases a p) [
      | inl (le, e) ↦ omega (arith, le, grows, ap (λ (q : NetJoinPdu). q.max_span) e)
      | inr (lt, e, n) ↦ omega (arith, e, grows)
    ] in
    let q = survey rest (widened a p) in
    record {
      widest = (bounded, s.widest);
      chosen = elim s.chosen [
        | inl e ↦ elim (widened-cases a p) [
          | inl (le, k) ↦ inl (e ∙ k)
          | inr (lt, k, n) ↦ inr (
              here (n ∙ ap NetJoin.get_max_socket_addr (sym e))
                (sym k ∙ ap (λ (m : NetJoinPdu). m.max_span) (sym e)))
        ]
        | inr st ↦ inr (further (Stops-apart rest a q st d.0) (widened-same a q bounded) st)
      ];
    }

pub Distinct-Passes :
    (rest : List Place) (p : NetJoinPdu)
    → Elsewhere (NetJoin.get_max_socket_addr p) rest
    → Distinct rest
    → Passes rest p
Distinct-Passes [] p h d = tt
Distinct-Passes (a ∷ rest) p h d = (
  h.0,
  elim (widened-cases a p) [
    | inl (le, e) ↦
        Distinct-Passes rest (widened a p)
          (subst (λ q. Elsewhere (NetJoin.get_max_socket_addr q) rest) (sym e) h.1) d.1
    | inr (lt, e, n) ↦ Distinct-Passes rest (widened a p) (subst (λ b. Elsewhere b rest) n d.0) d.1
  ],
)
