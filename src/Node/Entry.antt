-- ===== src/Node/Entry.antt =====
-- `Entry` of node.rs and its hash.
use distributed_hash_table.Prelude.{ℕ, ◌+◌, ◌*◌, ◌%◌, ◌^◌, ◌<◌, ◌≡◌, refl, [], ◌∷◌, arith}
use distributed_hash_table.Pdu.Text.{Text}

pub record Entry : Type 0 where
  pub ssn : Text
  pub name : Text
  pub email : Text

abbrev pub new : Text → Text → Text → Entry
new ssn name email = record { ssn = ssn; name = name; email = email }

-- `hash << 5` on a `u32`, and two additions that wrap.
hash_loop : ℕ → Text → ℕ
hash_loop hash [] = hash
hash_loop hash (c ∷ cs) = hash_loop ((((hash * 2 ^ 5) % 2 ^ 32 + hash) % 2 ^ 32 + c) % 2 ^ 32) cs

unfoldable pub hash_ssn : Text → ℕ
unfolding hash_loop
hash_ssn ssn = hash_loop 5381 ssn % 256

abbrev pub hash : Entry → ℕ
hash e = hash_ssn e.ssn

-- The same hash with no bound on its numbers.
abbrev pub plain_hash : ℕ → Text → ℕ
plain_hash h [] = h
plain_hash h (c ∷ cs) = plain_hash (h * 33 + c) cs

hash_loop-plain_hash :
    (ssn : Text) (h k : ℕ) → h % 256 ≡ k % 256 → hash_loop h ssn % 256 ≡ plain_hash k ssn % 256
unfolding hash_loop
hash_loop-plain_hash [] h k e = e
hash_loop-plain_hash (c ∷ cs) h k e = hash_loop-plain_hash cs _ _ (omega arith)

-- The hash of a number, with its 32-bit arithmetic that wraps, is the polynomial that multiplies by
-- 33 and adds the character, from 5381 on and with no bound, modulo 256.
pub hash_ssn-plain_hash : (ssn : Text) → hash_ssn ssn ≡ plain_hash 5381 ssn % 256
unfolding hash_ssn
hash_ssn-plain_hash ssn = hash_loop-plain_hash ssn 5381 5381 refl

pub hash_ssn-lt : (ssn : Text) → hash_ssn ssn < 256
unfolding hash_ssn
hash_ssn-lt ssn = omega arith
