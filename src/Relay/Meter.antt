-- ===== src/Relay/Meter.antt =====
-- The BL0942 meter: its packets, and the bytes that make them up. The floating-point readings, each
-- a function of one raw reading, are left out.
use forge_key.Prelude.{
  ℕ, zero, suc, ◌+◌, ◌-◌, ◌*◌, Bool, true, false, not, ◌&&◌, List, [], ◌∷◌, ◌++◌, ltb, leb, ◌==◌,
  if◌then◌else◌, length, drop, u8, u32, elapsed, ℤ, pos, negsuc, Text, codes,
}

-- The part of MeterState that is read off a packet.
pub record Sample : Type 0 where
  pub raw_current : ℕ
  pub raw_voltage : ℕ
  pub raw_fast_current : ℕ
  pub raw_power : ℤ
  pub raw_energy_count : ℕ
  pub raw_frequency : ℕ
  pub status : ℕ

pub record MeterState : Type 0 where
  pub valid : Bool
  pub samples : ℕ
  pub checksum_errors : ℕ
  pub junk_bytes : ℕ
  pub partial_timeouts : ℕ
  pub last_error : Text
  pub sample : Sample

-- The meter's globals; `buffer` is the filled part of g_meterBuffer.
pub record Meter : Type 0 where
  pub buffer : List ℕ
  pub rx_start_ms : ℕ
  pub last_request_ms : ℕ
  pub last_sample_ms : ℕ
  pub state : MeterState

unfoldable pub initial : Meter
initial = record {
  buffer = [];
  rx_start_ms = 0;
  last_request_ms = 0;
  last_sample_ms = 0;
  state = record {
    valid = false;
    samples = 0;
    checksum_errors = 0;
    junk_bytes = 0;
    partial_timeouts = 0;
    last_error = [];
    sample = record {
      raw_current = 0;
      raw_voltage = 0;
      raw_fast_current = 0;
      raw_power = pos 0;
      raw_energy_count = 0;
      raw_frequency = 0;
      status = 0;
    };
  };
}

abbrev pub packet_header : ℕ
packet_header = 85

abbrev pub read_command : ℕ
read_command = 88

-- p[i]
abbrev pub byte_at : List ℕ → ℕ → ℕ
byte_at [] i = 0
byte_at (b ∷ bs) zero = b
byte_at (b ∷ bs) (suc i) = byte_at bs i

-- The shifted bytes share no bit, so their `|` is their sum.
unfoldable pub read_u24 : List ℕ → ℕ
read_u24 p = byte_at p 0 + byte_at p 1 * 256 + byte_at p 2 * 65536

-- The sign bit is extended to 32 bits, which are then read as a signed number.
unfoldable pub read_s24 : List ℕ → ℤ
unfolding read_u24
read_s24 p =
    if leb 8388608 (read_u24 p) then negsuc (16777216 - read_u24 p - 1) else pos (read_u24 p)

unfoldable pub read_u16 : List ℕ → ℕ
read_u16 p = byte_at p 0 + byte_at p 1 * 256

-- The sum of `n` bytes on a byte, from a start.
unfoldable pub sum_bytes : ℕ → ℕ → List ℕ → ℕ
sum_bytes acc zero p = acc
sum_bytes acc (suc n) [] = acc
sum_bytes acc (suc n) (b ∷ bs) = sum_bytes (u8 (acc + b)) n bs

-- checksum ^ 0xff is 255 - checksum on a byte.
unfoldable pub validate_checksum : List ℕ → Bool
unfolding sum_bytes
validate_checksum packet = (255 - sum_bytes read_command 22 packet) == byte_at packet 22

abbrev set_meter_error : Text → MeterState → MeterState
set_meter_error error s = record s { last_error = error }

unfoldable pub packet_sample : List ℕ → Sample
unfolding read_u24 read_s24 read_u16
packet_sample packet = record {
  raw_current = read_u24 (drop 1 packet);
  raw_voltage = read_u24 (drop 4 packet);
  raw_fast_current = read_u24 (drop 7 packet);
  raw_power = read_s24 (drop 10 packet);
  raw_energy_count = read_u24 (drop 13 packet);
  raw_frequency = read_u16 (drop 16 packet);
  status = byte_at packet 19;
}

unfoldable pub parse_packet : ℕ → List ℕ → Meter → Meter
parse_packet now packet m =
    let s = m.state in
    if not (byte_at packet 0 == packet_header)
    then record m {
      state =
          set_meter_error (codes "header_mismatch")
            (record s { junk_bytes = u32 (s.junk_bytes + 1) });
    }
    else if not (validate_checksum packet)
    then record m {
      state =
          set_meter_error (codes "checksum")
            (record s { checksum_errors = u32 (s.checksum_errors + 1) });
    }
    else record m {
      last_sample_ms = now;
      state = record s {
        sample = packet_sample packet;
        valid = true;
        samples = u32 (s.samples + 1);
        last_error = [];
      };
    }

abbrev reset_meter_buffer : Meter → Meter
reset_meter_buffer m = record m { buffer = []; rx_start_ms = 0 }

-- One round of the loop: a byte that has arrived.
unfoldable pub receive : ℕ → ℕ → Meter → Meter
receive now b m =
    let s = m.state in
    let begun = if length m.buffer == 0 then record m { rx_start_ms = now } else m in
    let filled = m.buffer ++ b ∷ [] in
    if length m.buffer == 0 && not (b == packet_header)
    then record m {
      state = set_meter_error (codes "junk") (record s { junk_bytes = u32 (s.junk_bytes + 1) });
    }
    else if length filled == 23
    then reset_meter_buffer (parse_packet now filled (record begun { buffer = filled }))
    else record begun { buffer = filled }

unfoldable pub receive_all : ℕ → List ℕ → Meter → Meter
receive_all now [] m = m
receive_all now (b ∷ bs) m = receive_all now bs (receive now b m)

abbrev pub give_up : ℕ → Meter → Meter
give_up now m =
    let s = m.state in
    if ltb 0 (length m.buffer) && ltb 300 (elapsed now m.rx_start_ms)
    then record m {
      buffer = [];
      rx_start_ms = 0;
      state =
          set_meter_error (codes "partial_timeout")
            (record s { partial_timeouts = u32 (s.partial_timeouts + 1) });
    }
    else m

-- `arrived` is what the serial line holds.
unfoldable pub service_meter_serial : ℕ → List ℕ → Meter → Meter
unfolding receive_all
service_meter_serial now arrived m = receive_all now arrived (give_up now m)

-- The meter, and the bytes written to the line.
unfoldable pub request_sample : ℕ → Meter → Meter × List ℕ
request_sample now m =
    if not (m.last_request_ms == 0) && ltb (elapsed now m.last_request_ms) 15000
    then (m, [])
    else (record m { last_request_ms = now }, read_command ∷ 170 ∷ [])
