-- ===== src/Relay/Frames.antt =====
-- Frames of the meter: what is sent is what is read, and what a wrong byte does.
use forge_key.Prelude.{
  ℕ, zero, suc, ◌+◌, ◌-◌, ◌*◌, ◌/◌, ◌%◌, ◌<◌, ◌≡◌, ◌≢◌, refl, sym, ◌∙◌, true, false, List, [], ◌∷◌,
  ◌++◌, arith, ◌==◌, length, modify, u8, ℤ, pos, negsuc, length-modify, subst,
}
use forge_key.Relay.Meter.{
  Sample, byte_at, read_u24, read_s24, read_u16, sum_bytes, validate_checksum, packet_sample,
}

-- The bytes of a number of 24 bits, the lowest first, and the number that stands for a signed one.
abbrev pub u24_bytes : ℕ → List ℕ
u24_bytes n = n % 256 ∷ n / 256 % 256 ∷ n / 65536 ∷ []

abbrev pub two_complement : ℤ → ℕ
two_complement (pos n) = n
two_complement (negsuc n) = 16777215 - n

abbrev pub IsSigned24 : ℤ → Type 0
IsSigned24 (pos n) = n < 8388608
IsSigned24 (negsuc n) = n < 8388608

-- A sample that the chip can send.
pub record IsSendable (s : Sample) : Type 0 where
  pub current : s.raw_current < 16777216
  pub voltage : s.raw_voltage < 16777216
  pub fast_current : s.raw_fast_current < 16777216
  pub energy : s.raw_energy_count < 16777216
  pub frequency : s.raw_frequency < 65536
  pub power : IsSigned24 s.raw_power

-- A frame of the chip without its checksum: the header, the readings, and the bytes that are not
-- read.
abbrev pub frame_body : Sample → ℕ → ℕ → ℕ → List ℕ
frame_body s a b c =
    85
    ∷ (u24_bytes s.raw_current
        ++ u24_bytes s.raw_voltage
        ++ u24_bytes s.raw_fast_current
        ++ u24_bytes (two_complement s.raw_power)
        ++ u24_bytes s.raw_energy_count
        ++ s.raw_frequency % 256 ∷ s.raw_frequency / 256 ∷ a ∷ s.status ∷ b ∷ c ∷ [])

-- The sum of all bytes.
abbrev pub total : List ℕ → ℕ
total [] = 0
total (b ∷ bs) = b + total bs

abbrev pub frame : Sample → ℕ → ℕ → ℕ → List ℕ
frame s a b c = frame_body s a b c ++ (255 - (88 + total (frame_body s a b c)) % 256) ∷ []

sum_bytes-total :
    (acc : ℕ) (p : List ℕ) (c : ℕ)
    → acc < 256
    → sum_bytes acc (length p) (p ++ c ∷ []) ≡ (acc + total p) % 256
unfolding sum_bytes
sum_bytes-total acc [] c h = omega arith
sum_bytes-total acc (b ∷ bs) c h = sum_bytes-total (u8 (acc + b)) bs c (omega arith) ∙ omega arith

byte_at-last : (p : List ℕ) (c : ℕ) → byte_at (p ++ c ∷ []) (length p) ≡ c
byte_at-last [] c = refl
byte_at-last (b ∷ bs) c = byte_at-last bs c

-- A packet's checksum, for 22 bytes in front of it.
validate_checksum-total :
    (p : List ℕ) (c : ℕ)
    → length p ≡ 22
    → validate_checksum (p ++ c ∷ []) ≡ ((255 - (88 + total p) % 256) == c)
unfolding validate_checksum
validate_checksum-total p c h =
    let sum = sum_bytes-total 88 p c (omega arith) in
    let last = byte_at-last p c in
    let sum' = subst (λ n. sum_bytes 88 n (p ++ c ∷ []) ≡ (88 + total p) % 256) h sum in
    let last' = subst (λ n. byte_at (p ++ c ∷ []) n ≡ c) h last in rw (sum', last')

total-modify :
    (p : List ℕ) (k b : ℕ) → k < length p → total (modify k (λ _. b) p) + byte_at p k ≡ total p + b
total-modify [] k b h = absurd (omega arith)
total-modify (x ∷ p) zero b h = omega arith
total-modify (x ∷ p) (suc k) b h = omega (arith, total-modify p k b (omega arith))

-- A packet that passes the checksum no longer does when one of its 22 bytes in front of the
-- checksum is another byte.
pub checksum-detects :
    (p : List ℕ) (c k b : ℕ)
    → length p ≡ 22
    → validate_checksum (p ++ c ∷ []) ≡ true
    → k < 22
    → b < 256
    → byte_at p k < 256
    → b ≢ byte_at p k
    → validate_checksum (modify k (λ _. b) p ++ c ∷ []) ≡ false
checksum-detects p c k b h valid small hb hp ne =
    let good = sym (validate_checksum-total p c h) ∙ valid in
    let moved = total-modify p k b (omega arith) in
    validate_checksum-total (modify k (λ _. b) p) c (length-modify k (λ _. b) p ∙ h)
    ∙ ground (arith, good, moved)

read_u24-u24_bytes : (n : ℕ) (rest : List ℕ) → n < 16777216 → read_u24 (u24_bytes n ++ rest) ≡ n
unfolding read_u24
read_u24-u24_bytes n rest h = omega arith

read_s24-two_complement :
    (z : ℤ) (rest : List ℕ) → IsSigned24 z → read_s24 (u24_bytes (two_complement z) ++ rest) ≡ z
unfolding read_s24 read_u24
read_s24-two_complement (pos n) rest h = ground arith
read_s24-two_complement (negsuc n) rest h = let sum : n < 8388608 = h in ground arith

pub packet_sample-frame :
    (s : Sample) (a b c : ℕ) → IsSendable s → packet_sample (frame s a b c) ≡ s
unfolding packet_sample read_u16
packet_sample-frame s a b c h =
    let frequency : s.raw_frequency % 256 + s.raw_frequency / 256 * 256 ≡ s.raw_frequency =
      omega (arith, h.frequency) in
    rw (
      read_u24-u24_bytes s.raw_current _ h.current,
      read_u24-u24_bytes s.raw_voltage _ h.voltage,
      read_u24-u24_bytes s.raw_fast_current _ h.fast_current,
      read_s24-two_complement s.raw_power _ h.power,
      read_u24-u24_bytes s.raw_energy_count _ h.energy,
      frequency,
    )

pub validate_checksum-frame : (s : Sample) (a b c : ℕ) → validate_checksum (frame s a b c) ≡ true
validate_checksum-frame s a b c = validate_checksum-total (frame_body s a b c) _ refl ∙ ground arith
