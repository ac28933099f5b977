-- ===== src/Pdu/Bytes.antt =====
-- Reading and writing big-endian integers: the helpers of pdu.rs and the integer methods it calls.
use distributed_hash_table.Prelude.{
  ℕ, ◌+◌, ◌*◌, ◌/◌, ◌%◌, ◌^◌, ◌≤◌, ◌<◌, ◌≡◌, List, [], ◌∷◌, ◌++◌, Option, some, arith, ltb, le→ltb,
  if◌then◌else◌, length, take, drop, get_or, zero, suc, Outcome, ok, panic, ◌>>=◌, length-drop,
  length-append, take-length_append, drop-length_append,
}

abbrev pub IsU8 : ℕ → Type 0
IsU8 n = n < 256

abbrev pub IsU16 : ℕ → Type 0
IsU16 n = n < 2 ^ 16

abbrev pub IsU32 : ℕ → Type 0
IsU32 n = n < 2 ^ 32

-- `slice::split_at` panics where the slice is too short.
unfoldable pub split_at : ℕ → List ℕ → Outcome (List ℕ × List ℕ)
split_at n input = if ltb (length input) n then panic else ok (take n input, drop n input)

abbrev pub from_be_bytes : ℕ → List ℕ → ℕ
from_be_bytes acc [] = acc
from_be_bytes acc (b ∷ bs) = from_be_bytes (acc * 256 + b) bs

unfoldable pub read_be_u8 : List ℕ → Outcome (ℕ × List ℕ)
unfolding split_at
read_be_u8 input = do (int_bytes, rest) ← split_at 1 input; ok (from_be_bytes 0 int_bytes, rest)

unfoldable pub read_be_u16 : List ℕ → Outcome (ℕ × List ℕ)
unfolding split_at
read_be_u16 input = do (int_bytes, rest) ← split_at 2 input; ok (from_be_bytes 0 int_bytes, rest)

unfoldable pub read_be_u32 : List ℕ → Outcome (ℕ × List ℕ)
unfolding split_at
read_be_u32 input = do (int_bytes, rest) ← split_at 4 input; ok (from_be_bytes 0 int_bytes, rest)

abbrev pub u16_to_be_bytes : ℕ → List ℕ
u16_to_be_bytes n = n / 256 % 256 ∷ n % 256 ∷ []

abbrev pub u32_to_be_bytes : ℕ → List ℕ
u32_to_be_bytes n = n / 2 ^ 24 % 256 ∷ n / 2 ^ 16 % 256 ∷ n / 2 ^ 8 % 256 ∷ n % 256 ∷ []

pub read_be_u8-push : (n : ℕ) (rest : List ℕ) → read_be_u8 (n ∷ rest) ≡ ok (n, rest)
unfolding read_be_u8
read_be_u8-push n rest = ground arith

pub read_be_u16-to_be_bytes :
    (n : ℕ) (rest : List ℕ) → IsU16 n → read_be_u16 (u16_to_be_bytes n ++ rest) ≡ ok (n, rest)
unfolding read_be_u16
read_be_u16-to_be_bytes n rest h = ground arith

pub read_be_u32-to_be_bytes :
    (n : ℕ) (rest : List ℕ) → IsU32 n → read_be_u32 (u32_to_be_bytes n ++ rest) ≡ ok (n, rest)
unfolding read_be_u32
read_be_u32-to_be_bytes n rest h = ground arith

pub split_at-append : (n : ℕ) (xs ys : List ℕ) → length xs ≡ n → split_at n (xs ++ ys) ≡ ok (xs, ys)
unfolding split_at
split_at-append n xs ys h = rw (
  ← h,
  le→ltb (length (xs ++ ys)) (length xs) (omega (arith, length-append xs ys)),
  take-length_append,
  drop-length_append,
)

pub read_byte_at :
    (k : ℕ) (bs : List ℕ) → k < length bs → from_be_bytes 0 (take 1 (drop k bs)) ≡ get_or bs k 0
read_byte_at k [] h = absurd (omega arith)
read_byte_at zero (b ∷ bs) h = omega arith
read_byte_at (suc k) (b ∷ bs) h = read_byte_at k bs (omega arith)

-- A parser that took `n` bytes for its message.
abbrev pub Parses : {A : Type 0} → Outcome (Option (A × ℕ)) → ℕ → Type 0
Parses {A} m n = (p : A) × (m ≡ ok (some (p, n)))

-- A read from a long enough buffer goes on with a buffer that is shorter by the bytes read.
module _ {A : Type 0} (input : List ℕ) (n : ℕ) where
  pub split_at_then :
      (k : ℕ) (f : List ℕ × List ℕ → Outcome (Option (A × ℕ)))
      → k ≤ length input
      → ((head rest : List ℕ) → length input ≡ length rest + k → Parses (f (head, rest)) n)
      → Parses (split_at k input >>= f) n
  unfolding split_at
  split_at_then k f h next =
      rw (le→ltb (length input) k h)
        (next (take k input) (drop k input) (omega (arith, length-drop k input)))

  pub read_be_u8_then :
      (f : ℕ × List ℕ → Outcome (Option (A × ℕ)))
      → 1 ≤ length input
      → ((v : ℕ) (rest : List ℕ) → length input ≡ length rest + 1 → Parses (f (v, rest)) n)
      → Parses (read_be_u8 input >>= f) n
  unfolding read_be_u8
  read_be_u8_then f h next =
      rw (le→ltb (length input) 1 h)
        (next (from_be_bytes 0 (take 1 input)) (drop 1 input) (omega (arith, length-drop 1 input)))

  pub read_be_u16_then :
      (f : ℕ × List ℕ → Outcome (Option (A × ℕ)))
      → 2 ≤ length input
      → ((v : ℕ) (rest : List ℕ) → length input ≡ length rest + 2 → Parses (f (v, rest)) n)
      → Parses (read_be_u16 input >>= f) n
  unfolding read_be_u16
  read_be_u16_then f h next =
      rw (le→ltb (length input) 2 h)
        (next (from_be_bytes 0 (take 2 input)) (drop 2 input) (omega (arith, length-drop 2 input)))

  pub read_be_u32_then :
      (f : ℕ × List ℕ → Outcome (Option (A × ℕ)))
      → 4 ≤ length input
      → ((v : ℕ) (rest : List ℕ) → length input ≡ length rest + 4 → Parses (f (v, rest)) n)
      → Parses (read_be_u32 input >>= f) n
  unfolding read_be_u32
  read_be_u32_then f h next =
      rw (le→ltb (length input) 4 h)
        (next (from_be_bytes 0 (take 4 input)) (drop 4 input) (omega (arith, length-drop 4 input)))
