-- ===== src/Outbox/Backoff.antt =====
-- The retry delay.
use native.Mathlib.Nat.{pow-suc, mul_comm, mul_assoc}
use forge_key.Prelude.{
  sym, Bool-cases, inl, inr, ℕ, zero, suc, ◌+◌, ◌*◌, ◌^◌, ◌≤◌, ◌<◌, ◌≡◌, min, true, false, arith,
  ltb, elapsed, u8,
}
use forge_key.Outbox.Message.{Message, double_until, queue_backoff_ms, queue_max_backoff_ms}
use forge_key.Outbox.Queue.{retry, not_yet}

pow_pos : (n : ℕ) → 0 < 2 ^ n
pow_pos zero = omega arith
pow_pos (suc n) = omega (arith, pow-suc 2 n, pow_pos n)

double_power : (b n : ℕ) → b * 2 ^ suc n ≡ b * 2 * 2 ^ n
double_power b n = rw (pow-suc 2 n, mul_comm (2 ^ n) 2) (sym (mul_assoc b 2 (2 ^ n)))

double_until_capped : (n b : ℕ) → 0 < b → min 30000 (double_until n b) ≡ min 30000 (b * 2 ^ n)
unfolding double_until
double_until_capped zero b h = ground arith
double_until_capped (suc n) b h = elim (Bool-cases (ltb b queue_max_backoff_ms)) [
  | inl more ↦
      rw (more, double_until, double_power b n) (double_until_capped n (b * 2) (omega arith))
  | inr enough ↦
      let grown : b ≤ b * 2 ^ suc n = grind (arith, pow_pos (suc n)) in
      let large : 30000 ≤ b = ground arith in rw (enough, double_until) (omega arith)
]

-- The delay doubles with each failed attempt, from one second up to thirty.
pub queue_backoff_ms_lem : (n : ℕ) → queue_backoff_ms n ≡ min 30000 (1000 * 2 ^ n)
unfolding queue_backoff_ms
queue_backoff_ms_lem n = ground (arith, double_until_capped n 1000 (omega arith))

pub queue_backoff_bounds : (n : ℕ) → (1000 ≤ queue_backoff_ms n) × (queue_backoff_ms n ≤ 30000)
queue_backoff_bounds n = omega (arith, queue_backoff_ms_lem n, pow_pos n)

-- A message whose attempt failed at `now` is left alone until its delay has passed, is due from
-- then on, for as long as the signed comparison of the clock reaches, and keeps all but its
-- attempt count and time.
pub retry_waits :
    (now t : ℕ) (m : Message)
    → now < 4294967296
    → t < 4294967296
    → let delay = queue_backoff_ms (u8 (m.attempts + 1)) in
      let again = retry now m in
      (elapsed t now < delay → not_yet t again ≡ true)
      × (delay ≤ elapsed t now → elapsed t now < 2147483648 → not_yet t again ≡ false)
      × (again.critical ≡ m.critical)
unfolding retry
retry_waits now t m hn ht = ground (arith, queue_backoff_bounds (u8 (m.attempts + 1)))
