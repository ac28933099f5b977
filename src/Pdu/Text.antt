-- ===== src/Pdu/Text.antt =====
-- A Rust `String` as its list of scalar values. On the wire each character is one byte: the program
-- casts it by `as u8`, which keeps the low eight bits, and casts a byte back by `as char`.
use distributed_hash_table.Prelude.{
  ℕ, ◌+◌, ◌%◌, ◌<◌, ◌≡◌, ◌↔◌, refl, Bool, true, false, ◌&&◌, List, [], ◌∷◌, map, arith, ltb, ◌==◌,
  if◌then◌else◌, length, take, All,
}

abbrev pub Text : Type 0
Text = List ℕ

-- The bytes that UTF-8 uses for one character, and `str::len`, which counts them.
abbrev pub char_len : ℕ → ℕ
char_len c = if ltb c 0x80 then 1 else if ltb c 0x800 then 2 else if ltb c 0x10000 then 3 else 4

abbrev pub utf8_len : Text → ℕ
utf8_len [] = 0
utf8_len (c ∷ cs) = char_len c + utf8_len cs

-- `chars().map(|x| x as u8)`
abbrev pub chars_as_u8 : Text → List ℕ
chars_as_u8 = map (λ c. c % 256)

-- `iter().map(|&x| x as char).collect()`
abbrev pub bytes_as_chars : List ℕ → Text
bytes_as_chars bs = bs

-- `==` of two strings.
abbrev pub text_eq : Text → Text → Bool
text_eq [] [] = true
text_eq (a ∷ s) (b ∷ t) = a == b && text_eq s t
text_eq [] (b ∷ t) = false
text_eq (a ∷ s) [] = false

abbrev pub IsAscii : Text → Type 0
IsAscii = All (λ c. c < 0x80)

abbrev pub IsLatin : Text → Type 0
IsLatin = All (λ c. c < 256)

pub text_eq_iff : (s t : Text) → (text_eq s t ≡ true) ↔ (s ≡ t)
text_eq_iff [] [] = ground arith
text_eq_iff (a ∷ s) (b ∷ t) = ground (arith, text_eq_iff s t)
text_eq_iff [] (b ∷ t) = ground arith
text_eq_iff (a ∷ s) [] = ground arith

pub chars_as_u8_latin : (s : Text) → IsLatin s → chars_as_u8 s ≡ s
chars_as_u8_latin [] h = refl
chars_as_u8_latin (c ∷ cs) h = ground (arith, chars_as_u8_latin cs h.1)

pub utf8_len_ascii : (s : Text) → IsAscii s → utf8_len s ≡ length s
utf8_len_ascii [] h = refl
utf8_len_ascii (c ∷ cs) h = ground (arith, utf8_len_ascii cs h.1)

pub ascii-IsLatin : (s : Text) → IsAscii s → IsLatin s
ascii-IsLatin [] h = tt
ascii-IsLatin (c ∷ cs) h = (omega arith, ascii-IsLatin cs h.1)

pub take_all : (s : Text) (n : ℕ) → length s ≡ n → take n s ≡ s
take_all [] n h = ground arith
take_all (c ∷ cs) n h = ground (arith, take_all cs (length cs))
