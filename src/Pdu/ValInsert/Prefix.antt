-- ===== src/Pdu/ValInsert/Prefix.antt =====
-- VAL_INSERT that has not come whole.
use distributed_hash_table.Prelude.{
  ℕ, zero, suc, ◌+◌, ◌≤◌, ◌<◌, ◌≡◌, ◌≢◌, refl, ap, sym, ◌∙◌, drop-drop, List, [], ◌∷◌, ◌++◌, none,
  arith, length, take, drop, get_or, ok, append_assoc, append-nil, length-append, length-drop,
  length-take, ltb, Bool-cases, inl, inr, ◌==◌,
}
use distributed_hash_table.Pdu.Bytes.{read_byte_at, read_be_u8, split_at}
use distributed_hash_table.Pdu.ValInsert.{
  ValInsertPdu, to_bytes, to_bytes_wire, size-length, try_parse, IsBody,
}

-- The parser waits on a buffer that ends before the length of the name, within the name, or within
-- the email address.
try_parse_short : (bs : List ℕ) → length bs < 14 → try_parse bs ≡ ok none
unfolding try_parse
try_parse_short bs h = ground arith

try_parse_name :
    (bs : List ℕ) → 14 ≤ length bs → length bs < 14 + get_or bs 13 0 → try_parse bs ≡ ok none
unfolding try_parse read_be_u8 split_at
try_parse_name bs h k = ground (
  arith,
  length-drop 1 bs,
  length-drop 12 (drop 1 bs),
  length-drop 1 (drop 12 (drop 1 bs)),
  drop-drop 1 12 bs,
  read_byte_at 13 bs,
)

try_parse_email :
    (bs : List ℕ) (n : ℕ)
    → get_or bs 13 0 ≡ n
    → 15 + n ≤ length bs
    → length bs < 15 + n + get_or bs (14 + n) 0
    → try_parse bs ≡ ok none
unfolding try_parse read_be_u8 split_at
try_parse_email bs n e h k = ground (
  arith,
  length-drop 1 bs,
  length-drop 12 (drop 1 bs),
  length-drop 1 (drop 12 (drop 1 bs)),
  drop-drop 1 12 bs,
  drop-drop 13 1 bs,
  drop-drop 14 n bs,
  read_byte_at 13 bs,
  read_byte_at (14 + n) bs,
  length-drop n (drop 14 bs),
  length-drop (14 + n) bs,
  length-drop 1 (drop (14 + n) bs),
)

-- The byte behind a list, and a byte of what is left of it.
get_or-append :
    (xs : List ℕ) (y : ℕ) (ys : List ℕ) (i : ℕ) → i ≡ length xs → get_or (xs ++ y ∷ ys) i 0 ≡ y
get_or-append [] y ys zero h = refl
get_or-append [] y ys (suc i) h = absurd (omega arith)
get_or-append (x ∷ xs) y ys zero h = absurd (omega arith)
get_or-append (x ∷ xs) y ys (suc i) h = get_or-append xs y ys i (omega arith)

get_or-take : (bs : List ℕ) (n i : ℕ) → i < n → get_or (take n bs) i 0 ≡ get_or bs i 0
get_or-take bs zero i h = absurd (omega arith)
get_or-take [] (suc n) i h = refl
get_or-take (b ∷ bs) (suc n) zero h = refl
get_or-take (b ∷ bs) (suc n) (suc i) h = get_or-take bs n i (omega arith)

-- The two length fields as bytes of the message.
name_length_at : (p : ValInsertPdu) → IsBody p → get_or (to_bytes p) 13 0 ≡ p.name_length
name_length_at p w =
    let rest : List ℕ = p.name ++ (p.email_length ∷ (p.email ++ [])) in
    let bytes = sym (append-nil (to_bytes p)) ∙ to_bytes_wire p [] w in
    ap (λ (bs : List ℕ). get_or bs 13 0) bytes
    ∙ get_or-append (p.pdu_type ∷ p.ssn) p.name_length rest 13 (omega (arith, w.ssn_size))

email_length_at :
    (p : ValInsertPdu) → IsBody p → get_or (to_bytes p) (14 + p.name_length) 0 ≡ p.email_length
email_length_at p w =
    let front : List ℕ = p.pdu_type ∷ (p.ssn ++ p.name_length ∷ p.name) in
    let whole : to_bytes p ≡ front ++ p.email_length ∷ (p.email ++ []) =
      sym (append-nil (to_bytes p))
      ∙ to_bytes_wire p [] w
      ∙ ap (p.pdu_type ∷◌)
          (sym (append_assoc p.ssn (p.name_length ∷ p.name) (p.email_length ∷ (p.email ++ [])))) in
    let at : 14 + p.name_length ≡ length front =
      omega (arith, length-append p.ssn (p.name_length ∷ p.name), w.ssn_size, w.name_size) in
    ap (λ (bs : List ℕ). get_or bs (14 + p.name_length) 0) whole
    ∙ get_or-append front p.email_length (p.email ++ []) (14 + p.name_length) at

pub try_parse-take :
    (p : ValInsertPdu) (n : ℕ)
    → IsBody p
    → n < length (to_bytes p)
    → n ≢ 14 + p.name_length
    → try_parse (take n (to_bytes p)) ≡ ok none
try_parse-take p n w h c =
    let bs = take n (to_bytes p) in
    let len : length bs ≡ n = omega (arith, length-take n (to_bytes p)) in
    let all = size-length p w in
    elim (Bool-cases (ltb n 14)) [
      | inl short ↦ try_parse_short bs (ground arith)
      | inr long ↦
          let enough : 14 ≤ n = ground arith in
          let name : get_or bs 13 0 ≡ p.name_length =
            get_or-take (to_bytes p) n 13 (omega arith) ∙ name_length_at p w in
          elim (Bool-cases (ltb n (14 + p.name_length))) [
            | inl inside ↦
                let end : n < 14 + p.name_length = ground arith in
                try_parse_name bs (omega arith) (omega arith)
            | inr past ↦
                let end : 14 + p.name_length ≤ n = ground arith in
                let over : 15 + p.name_length ≤ n = elim (Bool-cases (n == 14 + p.name_length)) [
                  | inl e ↦ absurd (c (ground arith))
                  | inr e ↦ ground arith
                ] in
                let email : get_or bs (14 + p.name_length) 0 ≡ p.email_length =
                  get_or-take (to_bytes p) n (14 + p.name_length) (omega arith)
                  ∙ email_length_at p w in
                try_parse_email bs p.name_length name (omega arith) (omega (arith, h, all))
          ]
    ]
