-- ===== src/Prelude/Words.antt =====
-- Machine words: `unsigned long` and `uint32_t` have 32 bits on the ESP32, `uint8_t` has 8.
use Prim.Native.Nat.{ℕ, ◌+◌, ◌-◌, ◌%◌}
use mathlib.Core.Bool.{Bool, false}
use forge_key.Prelude.Tests.{ltb}

abbrev pub u8 : ℕ → ℕ
u8 n = n % 256

abbrev pub u32 : ℕ → ℕ
u32 n = n % 4294967296

-- `now - then` on `unsigned long`: the time that has passed, across one wrap of `millis()`.
abbrev pub elapsed : ℕ → ℕ → ℕ
elapsed now then' = (now + 4294967296 - then') % 4294967296

-- A signed machine integer: `pos n`, or -(n + 1).
pub data ℤ : Type 0 where
  pos negsuc : ℕ → ℤ

abbrev pub is_positive : ℤ → Bool
is_positive (pos n) = ltb 0 n
is_positive (negsuc n) = false
