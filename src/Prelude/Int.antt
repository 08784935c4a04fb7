-- ===== src/Prelude/Int.antt =====
-- Go's int64: `negsuc n` is -(n + 1). Values lie between -2^63 and 2^63 - 1.
use Prim.Native.Nat.{ℕ, zero, suc, ◌<◌}
use mathlib.Core.Path.{◌≡◌}
use mathlib.Core.Bool.{Bool, true, false}
use native.Mathlib.Omega.{arith}
use trabalho_radio_px.Prelude.Tests.{ltb, nat_eq, if◌then◌else◌}

pub data ℤ : Type 0 where
  pos : ℕ → ℤ
  negsuc : ℕ → ℤ

abbrev pub max_int64 : ℕ
max_int64 = 9223372036854775807

-- `n + 1`, which wraps round at the largest value.
unfoldable pub increment : ℤ → ℤ
increment (pos n) = if nat_eq n max_int64 then negsuc max_int64 else pos (suc n)
increment (negsuc zero) = pos 0
increment (negsuc (suc n)) = negsuc n

-- `a < b`
abbrev pub ltb_ℤ : ℤ → ℤ → Bool
ltb_ℤ (pos a) (pos b) = ltb a b
ltb_ℤ (pos a) (negsuc b) = false
ltb_ℤ (negsuc a) (pos b) = true
ltb_ℤ (negsuc a) (negsuc b) = ltb b a

pub increment_pos : (n : ℕ) → n < max_int64 → increment (pos n) ≡ pos (suc n)
unfolding increment
increment_pos n h = ground arith

abbrev pub pos_part : ℤ → ℕ
pos_part (pos n) = n
pos_part (negsuc n) = 0
