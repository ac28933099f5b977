-- ===== src/Pdu/ValInsert.antt =====
-- VAL_INSERT: store an entry. The only message of variable length, with VAL_LOOKUP_RESPONSE.
pub mod Prefix
use distributed_hash_table.Prelude.{
  ℕ, ◌+◌, ◌%◌, ◌≤◌, ◌<◌, ◌≡◌, ◌↔◌, refl, ap, sym, drop-drop, take-append, List, ◌∷◌, ◌++◌, Option,
  none, some, arith, ltb, if◌then◌else◌, length, take, drop, get_or, Outcome, ok, panic, waits,
  stuck, ◌>>=◌, ◌≢◌, append_assoc, append-nil, length-append, length-drop, [],
}
use distributed_hash_table.Pdu.Ids.{val_insert_id, ssn_length}
use distributed_hash_table.Pdu.Bytes.{
  from_be_bytes, IsU8, split_at, read_be_u8, read_be_u8-push, split_at-append, read_byte_at,
}
use distributed_hash_table.Pdu.Text.{
  Text, utf8_len, chars_as_u8, bytes_as_chars, IsAscii, IsLatin, chars_as_u8_latin, utf8_len_ascii,
  ascii-IsLatin, take_all,
}

pub record ValInsertPdu : Type 0 where
  pub pdu_type : ℕ
  pub ssn : Text
  pub name_length : ℕ
  pub name : Text
  pub email_length : ℕ
  pub email : Text

unfoldable pub new : Text → Text → Text → ValInsertPdu
new ssn name email = record {
  pdu_type = val_insert_id;
  ssn = ssn;
  name_length = utf8_len name % 256;
  name = name;
  email_length = utf8_len email % 256;
  email = email;
}

unfoldable pub to_bytes : ValInsertPdu → List ℕ
to_bytes pdu =
    pdu.pdu_type
    ∷ (chars_as_u8 (take ssn_length pdu.ssn)
        ++ (pdu.name_length ∷ (chars_as_u8 pdu.name ++ (pdu.email_length ∷ chars_as_u8 pdu.email))))

-- The bytes that a message with texts of these lengths takes.
abbrev pub size : ℕ → ℕ → ℕ
size name_length email_length = 1 + ssn_length + 1 + name_length + 1 + email_length

-- The second length test leaves out the byte that holds the length of the email address.
unfoldable pub try_parse : List ℕ → Outcome (Option (ValInsertPdu × ℕ))
try_parse buffer = if ltb (length buffer) (1 + ssn_length + 1) then ok none else do
  (pdu_type, buffer) ← read_be_u8 buffer
  (ssn, buffer) ← split_at ssn_length buffer
  (name_length, buffer) ← read_be_u8 buffer
  if ltb (length buffer) name_length then ok none else do
    (name, buffer) ← split_at name_length buffer
    (email_length, buffer) ← read_be_u8 buffer
    if ltb (length buffer) email_length
        then ok none
        else ok (
            some (
              record {
                pdu_type = pdu_type;
                ssn = bytes_as_chars ssn;
                name_length = name_length;
                name = bytes_as_chars name;
                email_length = email_length;
                email = bytes_as_chars (take email_length buffer);
              },
              size name_length email_length,
            ))

-- Texts that read back as they were: every character is one byte, and the length fields are true.
pub record IsBody (p : ValInsertPdu) : Type 0 where
  pub ssn_size : length p.ssn ≡ ssn_length
  pub ssn_latin : IsLatin p.ssn
  pub name_size : p.name_length ≡ length p.name
  pub name_latin : IsLatin p.name
  pub name_fits : IsU8 p.name_length
  pub email_size : p.email_length ≡ length p.email
  pub email_latin : IsLatin p.email
  pub email_fits : IsU8 p.email_length

pub record IsWire (p : ValInsertPdu) : Type 0 where
  pub tag : p.pdu_type ≡ val_insert_id
  pub body : IsBody p

pub new-IsBody :
    (ssn name email : Text)
    → IsAscii ssn
    → length ssn ≡ ssn_length
    → IsAscii name
    → length name < 256
    → IsAscii email
    → length email < 256
    → IsBody (new ssn name email)
unfolding new
new-IsBody ssn name email sa ls an ln ae le = record {
  ssn_size = ls;
  ssn_latin = ascii-IsLatin ssn sa;
  name_size = omega (arith, utf8_len_ascii name an);
  name_latin = ascii-IsLatin name an;
  name_fits = omega arith;
  email_size = omega (arith, utf8_len_ascii email ae);
  email_latin = ascii-IsLatin email ae;
  email_fits = omega arith;
}

pub new-IsWire :
    (ssn name email : Text)
    → IsAscii ssn
    → length ssn ≡ ssn_length
    → IsAscii name
    → length name < 256
    → IsAscii email
    → length email < 256
    → IsWire (new ssn name email)
new-IsWire ssn name email sa ls an ln ae le = record {
  tag = unfold new in refl;
  body = new-IsBody ssn name email sa ls an ln ae le;
}

-- The bytes of a value that reads back.
pub to_bytes_wire :
    (p : ValInsertPdu) (rest : List ℕ)
    → IsBody p
    → to_bytes p ++ rest
      ≡ p.pdu_type ∷ (p.ssn ++ (p.name_length ∷ (p.name ++ (p.email_length ∷ (p.email ++ rest)))))
unfolding to_bytes
to_bytes_wire p rest w = simp (
  take_all p.ssn ssn_length w.ssn_size,
  chars_as_u8_latin p.ssn w.ssn_latin,
  chars_as_u8_latin p.name w.name_latin,
  chars_as_u8_latin p.email w.email_latin,
  append_assoc,
)

pub try_parse-to_bytes :
    (p : ValInsertPdu) (rest : List ℕ)
    → IsBody p
    → try_parse (to_bytes p ++ rest) ≡ ok (some (p, size p.name_length p.email_length))
unfolding try_parse
try_parse-to_bytes p rest w =
    let tail : List ℕ = p.email_length ∷ (p.email ++ rest) in
    rw (to_bytes_wire p rest w) (
      simp
        (
          read_be_u8-push,
          split_at-append ssn_length p.ssn _ w.ssn_size,
          split_at-append p.name_length p.name _ (sym w.name_size),
        )
        (ground (
          arith,
          length-append p.ssn (p.name_length ∷ (p.name ++ tail)),
          length-append p.name tail,
          length-append p.email rest,
          take-append p.email_length p.email rest,
        )))

-- The parser fails to wait, and panics, exactly on a buffer that ends between the name and the
-- length of the email address.
pub try_parse_panics :
    (bs : List ℕ) → (try_parse bs ≡ panic) ↔ ((14 ≤ length bs) × (length bs ≡ 14 + get_or bs 13 0))
unfolding try_parse read_be_u8 split_at
try_parse_panics bs = ground (
  arith,
  length-drop 1 bs,
  length-drop 12 (drop 1 bs),
  length-drop 1 (drop 12 (drop 1 bs)),
  drop-drop 1 12 bs,
  read_byte_at 13 bs,
  length-drop (get_or bs 13 0) (drop 1 (drop 12 (drop 1 bs))),
)

-- Where it succeeds it takes at least fifteen bytes, and no more than there are.
pub try_parse_used :
    (bs : List ℕ) (p : ValInsertPdu) (used : ℕ)
    → try_parse bs ≡ ok (some (p, used))
    → (15 ≤ used) × (used ≤ length bs)
unfolding try_parse read_be_u8 split_at
try_parse_used bs p used h =
    let b1 = drop 1 bs in
    let b2 = drop 12 b1 in
    let b3 = drop 1 b2 in
    let n = from_be_bytes 0 (take 1 b2) in
    let b4 = drop n b3 in
    ground (
      arith,
      length-drop 1 bs,
      length-drop 12 b1,
      length-drop 1 b2,
      length-drop n b3,
      length-drop 1 b4,
    )

-- A buffer with all bytes that the length fields announce is parsed.
pub try_parse_defined : (bs : List ℕ) → (try_parse bs ≢ waits) × (try_parse bs ≢ stuck)
unfolding try_parse read_be_u8 split_at
try_parse_defined bs = ground arith

pub size-length :
    (p : ValInsertPdu) → IsBody p → size p.name_length p.email_length ≡ length (to_bytes p)
size-length p w = omega (
  arith,
  ap length (to_bytes_wire p [] w),
  ap length (append-nil (to_bytes p)),
  length-append p.ssn (p.name_length ∷ (p.name ++ (p.email_length ∷ (p.email ++ [])))),
  length-append p.name (p.email_length ∷ (p.email ++ [])),
  length-append p.email [],
  w.ssn_size,
)
