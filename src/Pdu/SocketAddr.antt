-- ===== src/Pdu/SocketAddr.antt =====
-- Addresses of the standard library: an IPv4 address is its 32 bits. The fields of a `v6` stand for an
-- address that the program only ever refuses.
use distributed_hash_table.Prelude.{ℕ, ◌≡◌, ◌↔◌, Bool, true, false, ◌&&◌, arith, ◌==◌}

pub data SocketAddr : Type 0 where
  v4 : ℕ → ℕ → SocketAddr
  v6 : ℕ → ℕ → SocketAddr

-- `==` of two addresses.
abbrev pub addr_eq : SocketAddr → SocketAddr → Bool
addr_eq (v4 ip port) (v4 ip' port') = ip == ip' && port == port'
addr_eq (v6 ip port) (v6 ip' port') = ip == ip' && port == port'
addr_eq (v4 ip port) (v6 ip' port') = false
addr_eq (v6 ip port) (v4 ip' port') = false

pub addr_eq_iff : (a b : SocketAddr) → (addr_eq a b ≡ true) ↔ (a ≡ b)
addr_eq_iff (v4 ip port) (v4 ip' port') = ground arith
addr_eq_iff (v6 ip port) (v6 ip' port') = ground arith
addr_eq_iff (v4 ip port) (v6 ip' port') = ground arith
addr_eq_iff (v6 ip port) (v4 ip' port') = ground arith
