-- ===== src/Relay/Framing.antt =====
-- The framing of the meter's buffer.
use forge_key.Prelude.{ℕ, ◌<◌, ◌≡◌, refl, List, [], ◌∷◌, ◌++◌, arith, length, length-append}
use forge_key.Relay.Meter.{
  Meter, initial, byte_at, receive, receive_all, service_meter_serial, give_up,
}

-- The buffer holds the beginning of a packet, or nothing.
pub record IsFramed (m : Meter) : Type 0 where
  pub short : length m.buffer < 23
  pub headed : 0 < length m.buffer → byte_at m.buffer 0 ≡ 85

byte_at-append : (xs : List ℕ) (y : ℕ) → 0 < length xs → byte_at (xs ++ y ∷ []) 0 ≡ byte_at xs 0
byte_at-append [] y h = absurd (omega arith)
byte_at-append (x ∷ xs) y h = refl

byte_at-append_first : (xs : List ℕ) (y : ℕ) → length xs ≡ 0 → byte_at (xs ++ y ∷ []) 0 ≡ y
byte_at-append_first [] y h = refl
byte_at-append_first (x ∷ xs) y h = absurd (omega arith)

-- A byte keeps the framing, and the packet it may complete has the header: the parser's test of
-- the header never fails.
receive-IsFramed : (now b : ℕ) (m : Meter) → IsFramed m → IsFramed (receive now b m)
unfolding receive
receive-IsFramed now b m h = ground (
  arith,
  length-append m.buffer (b ∷ []),
  byte_at-append m.buffer b,
  byte_at-append_first m.buffer b,
  h.short,
  h.headed,
)

receive_all-IsFramed :
    (now : ℕ) (bs : List ℕ) (m : Meter) → IsFramed m → IsFramed (receive_all now bs m)
unfolding receive_all
receive_all-IsFramed now [] m h = h
receive_all-IsFramed now (b ∷ bs) m h =
    receive_all-IsFramed now bs (receive now b m) (receive-IsFramed now b m h)

give_up-IsFramed : (now : ℕ) (m : Meter) → IsFramed m → IsFramed (give_up now m)
give_up-IsFramed now m h = ground (arith, h.short, h.headed)

pub initial-IsFramed : IsFramed initial
unfolding initial
initial-IsFramed = ground arith

-- However bytes arrive, the buffer of 23 bytes is never overrun: a service of the line leaves
-- fewer than 23 bytes in it, the first of them, if there is one, a packet's header.
pub service_meter_serial-IsFramed :
    (now : ℕ) (arrived : List ℕ) (m : Meter)
    → IsFramed m
    → IsFramed (service_meter_serial now arrived m)
unfolding service_meter_serial
service_meter_serial-IsFramed now arrived m h =
    receive_all-IsFramed now arrived (give_up now m) (give_up-IsFramed now m h)
