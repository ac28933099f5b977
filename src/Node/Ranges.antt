-- ===== src/Node/Ranges.antt =====
-- How a hash range is divided.
use distributed_hash_table.Prelude.{ℕ, ◌+◌, ◌-◌, ◌≤◌, ◌<◌, ◌≡◌, ◌⊎◌, false, ◌&&◌, ◌||◌, arith}
use distributed_hash_table.Node.Util.{halves, covers}

-- If a range of u8 numbers is not empty and not that of 255 alone, the lower half begins where the
-- range began and ends within it, the upper half begins one above that and ends where the range
-- ended.
pub halves_ends :
    (min max : ℕ)
    → min ≤ max
    → max < 256
    → (min < max) ⊎ (max < 255)
    → let (own, other) = halves (min, max) in
      (own.0 ≡ min) × (other.1 ≡ max) × (other.0 ≡ own.1 + 1) × (min ≤ own.1) × (own.1 ≤ max)
unfolding halves
halves_ends min max h k c = ground arith

-- If a range of u8 numbers is not empty and not that of 255 alone, a number is in the range exactly
-- if it is in one of the two halves of split_range, and never in both.
pub halves_partition :
    (min max h : ℕ)
    → min ≤ max
    → max < 256
    → (min < max) ⊎ (max < 255)
    → let (own, other) = halves (min, max) in
      (covers (min, max) h ≡ covers own h || covers other h)
      × (covers own h && covers other h ≡ false)
unfolding halves
halves_partition min max h le lt c = ground arith

-- If a range of u8 numbers has more than one number, both halves have at least one, and the lower
-- has as many as the upper or one more.
pub halves_balanced :
    (min max : ℕ)
    → min < max
    → max < 256
    → let (own, other) = halves (min, max) in
      (own.0 ≤ own.1)
      × (other.0 ≤ other.1)
      × (other.1 - other.0 ≤ own.1 - own.0)
      × (own.1 - own.0 ≤ other.1 - other.0 + 1)
unfolding halves
halves_balanced min max lt k = ground arith
