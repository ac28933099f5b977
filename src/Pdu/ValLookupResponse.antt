-- ===== src/Pdu/ValLookupResponse.antt =====
-- VAL_LOOKUP_RESPONSE: the entry that was asked for, in the layout of VAL_INSERT.
use distributed_hash_table.Prelude.{
  ℕ, ◌%◌, ◌≤◌, ◌<◌, ◌≡◌, refl, List, ◌∷◌, ◌++◌, Option, none, some, arith, length, take, Outcome,
  ok, panic, waits, stuck, ◌≢◌, ◌↔◌, ◌+◌, get_or, ◌>>=◌, >>=-eq-ok, ◌∙◌, ap,
}
use distributed_hash_table.Pdu.Ids.{val_lookup_id, val_lookup_response_id, ssn_length}
use distributed_hash_table.Pdu.Text.{Text, utf8_len, chars_as_u8, IsAscii}
use distributed_hash_table.Pdu.ValInsert
use distributed_hash_table.Pdu.ValInsert.Prefix
use distributed_hash_table.Pdu.ValInsert.{ValInsertPdu}

pub record ValLookupResponsePdu : Type 0 where
  pub pdu_type : ℕ
  pub ssn : Text
  pub name_length : ℕ
  pub name : Text
  pub email_length : ℕ
  pub email : Text

unfoldable pub new : Text → Text → Text → ValLookupResponsePdu
new ssn name email = record {
  pdu_type = val_lookup_response_id;
  ssn = ssn;
  name_length = utf8_len name % 256;
  name = name;
  email_length = utf8_len email % 256;
  email = email;
}

unfoldable pub to_bytes : ValLookupResponsePdu → List ℕ
to_bytes pdu =
    pdu.pdu_type
    ∷ (chars_as_u8 (take ssn_length pdu.ssn)
        ++ (pdu.name_length ∷ (chars_as_u8 pdu.name ++ (pdu.email_length ∷ chars_as_u8 pdu.email))))

-- The tag of the parsed value is that of VAL_LOOKUP.
from_insert : Option (ValInsertPdu × ℕ) → Outcome (Option (ValLookupResponsePdu × ℕ))
from_insert none = ok none
from_insert (some (pdu, s)) = ok (
    some (
      record {
        pdu_type = val_lookup_id;
        ssn = pdu.ssn;
        name_length = pdu.name_length;
        name = pdu.name;
        email_length = pdu.email_length;
        email = pdu.email;
      },
      s,
    ))

unfoldable pub try_parse : List ℕ → Outcome (Option (ValLookupResponsePdu × ℕ))
unfolding from_insert
try_parse buffer = do parsed ← ValInsert.try_parse buffer; from_insert parsed

-- The same fields as those of an insertion.
abbrev pub as_insert : ValLookupResponsePdu → ValInsertPdu
as_insert p = record {
  pdu_type = p.pdu_type;
  ssn = p.ssn;
  name_length = p.name_length;
  name = p.name;
  email_length = p.email_length;
  email = p.email;
}

-- A value whose texts read back as they were.
pub record IsWire (p : ValLookupResponsePdu) : Type 0 where
  pub tag : p.pdu_type ≡ val_lookup_response_id
  pub body : ValInsert.IsBody (as_insert p)

pub new-IsWire :
    (ssn name email : Text)
    → IsAscii ssn
    → length ssn ≡ ssn_length
    → IsAscii name
    → length name < 256
    → IsAscii email
    → length email < 256
    → IsWire (new ssn name email)
unfolding new
new-IsWire ssn name email sa ls an ln ae le =
    let b = ValInsert.new-IsBody ssn name email sa ls an ln ae le in
    record {
      tag = refl;
      body =
          unfold ValInsert.new in
          record {
            ssn_size = b.ssn_size;
            ssn_latin = b.ssn_latin;
            name_size = b.name_size;
            name_latin = b.name_latin;
            name_fits = b.name_fits;
            email_size = b.email_size;
            email_latin = b.email_latin;
            email_fits = b.email_fits;
          };
    }

-- The value comes back but for its tag.
pub try_parse-to_bytes :
    (p : ValLookupResponsePdu) (rest : List ℕ)
    → IsWire p
    → try_parse (to_bytes p ++ rest)
      ≡ ok (
          some (record p { pdu_type = val_lookup_id }, ValInsert.size p.name_length p.email_length))
unfolding try_parse to_bytes ValInsert.to_bytes
try_parse-to_bytes p rest w =
    let back = ValInsert.try_parse-to_bytes (as_insert p) rest w.body in cc back

pub try_parse_panics :
    (bs : List ℕ) → (try_parse bs ≡ panic) ↔ ((14 ≤ length bs) × (length bs ≡ 14 + get_or bs 13 0))
unfolding try_parse
try_parse_panics bs = let inner = ValInsert.try_parse_panics bs in ground (arith, inner)

from_insert_used :
    (o : Option (ValInsertPdu × ℕ)) (p : ValLookupResponsePdu) (used : ℕ)
    → from_insert o ≡ ok (some (p, used))
    → (q : ValInsertPdu) × (o ≡ some (q, used))
unfolding from_insert
from_insert_used none p used h = cc
from_insert_used (some (q, s)) p used h = (q, ground arith)

from_insert_defined :
    (m : Outcome (Option (ValInsertPdu × ℕ)))
    → (m ≢ waits) × (m ≢ stuck)
    → ((m >>= from_insert) ≢ waits) × ((m >>= from_insert) ≢ stuck)
unfolding from_insert
from_insert_defined (ok none) d = ((λ h. cc), (λ h. cc))
from_insert_defined (ok (some (q, s))) d = ((λ h. cc), (λ h. cc))
from_insert_defined panic d = ((λ h. cc), (λ h. cc))
from_insert_defined waits d = absurd (d.0 refl)
from_insert_defined stuck d = absurd (d.1 refl)

pub try_parse_used :
    (bs : List ℕ) (p : ValLookupResponsePdu) (used : ℕ)
    → try_parse bs ≡ ok (some (p, used))
    → (15 ≤ used) × (used ≤ length bs)
unfolding try_parse
try_parse_used bs p used h =
    let (parsed, e, f) = >>=-eq-ok (ValInsert.try_parse bs) from_insert h in
    let (q, g) = from_insert_used parsed p used f in
    ValInsert.try_parse_used bs q used (e ∙ ap ok g)

pub try_parse_defined : (bs : List ℕ) → (try_parse bs ≢ waits) × (try_parse bs ≢ stuck)
unfolding try_parse
try_parse_defined bs = from_insert_defined (ValInsert.try_parse bs) (ValInsert.try_parse_defined bs)

pub size-length :
    (p : ValLookupResponsePdu)
    → IsWire p
    → ValInsert.size p.name_length p.email_length ≡ length (to_bytes p)
unfolding to_bytes ValInsert.to_bytes
size-length p w = ValInsert.size-length (as_insert p) w.body

pub try_parse-take :
    (p : ValLookupResponsePdu) (n : ℕ)
    → IsWire p
    → n < length (to_bytes p)
    → n ≢ 14 + p.name_length
    → try_parse (take n (to_bytes p)) ≡ ok none
unfolding try_parse to_bytes ValInsert.to_bytes from_insert
try_parse-take p n w h c =
    let inner = ValInsert.Prefix.try_parse-take (as_insert p) n w.body h c in cc inner
