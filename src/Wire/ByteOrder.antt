-- ===== src/Wire/ByteOrder.antt =====
-- The byte swaps of include/common.h undo themselves and read a field as the network wrote it.
use ps3netsrv.Prelude.{ℕ, ◌^◌, ◌<◌, ◌≡◌, arith}
use ps3netsrv.Wire.{be16, be32, be64}

pub be16-be16 : (x : ℕ) → x < 2 ^ 16 → be16 (be16 x) ≡ x
unfolding be16
be16-be16 x h = omega arith

pub be32-be32 : (x : ℕ) → x < 2 ^ 32 → be32 (be32 x) ≡ x
unfolding be32
be32-be32 x h = omega arith

pub be64-be64 : (x : ℕ) → x < 2 ^ 64 → be64 (be64 x) ≡ x
unfolding be64
be64-be64 x h = omega arith

pub be32-lt : (x : ℕ) → be32 x < 2 ^ 32
unfolding be32
be32-lt x = omega arith

pub be64-lt : (x : ℕ) → be64 x < 2 ^ 64
unfolding be64
be64-lt x = omega arith
