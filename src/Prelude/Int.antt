-- ===== src/Prelude/Int.antt =====
-- Python's whole numbers over the native naturals: `negsuc n` is -(n + 1).
use Prim.Native.Nat.{ℕ}
use mcp_gatekeeper.Prelude.Tests.{if◌then◌else◌, ltb}

pub data ℤ : Type 0 where
  pos : ℕ → ℤ
  negsuc : ℕ → ℤ

-- `max(a, 0)`, as a natural number.
abbrev pub pos_part : ℤ → ℕ
pos_part (pos n) = n
pos_part (negsuc n) = 0

-- `min(a, n)` for a natural number `n`.
abbrev pub min_ℕ : ℤ → ℕ → ℤ
min_ℕ (pos m) n = pos (if ltb n m then n else m)
min_ℕ (negsuc m) n = negsuc m
