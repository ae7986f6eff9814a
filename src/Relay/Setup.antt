-- ===== src/Relay/Setup.antt =====
-- The writes that set the meter up, and `tickFn`.
use forge_key.Prelude.{
  ℕ, ◌+◌, ◌-◌, ◌/◌, ◌%◌, Bool, false, not, ◌&&◌, ◌||◌, List, [], ◌∷◌, ◌++◌, leb, ◌==◌,
  if◌then◌else◌, elapsed,
}
use forge_key.Relay.Meter.{Meter, service_meter_serial, request_sample}

-- `writeBl0942Register`: the six bytes that go out.
unfoldable pub register_packet : ℕ → ℕ → List ℕ
register_packet reg value =
    let low = value % 256 in
    let middle = value / 256 % 256 in
    let high = value / 65536 % 256 in
    168 ∷ reg ∷ low ∷ middle ∷ high ∷ (255 - (168 + reg + low + middle + high) % 256) ∷ []

-- `setupBl0942`, for a line of 60 Hz and without a reset: the write protection is opened, the mode
-- set, and the protection closed.
unfoldable pub setup_packets : List ℕ
unfolding register_packet
setup_packets = register_packet 29 85 ++ register_packet 25 175 ++ register_packet 29 0

-- The meter with the time of the last usage report.
pub record Reporter : Type 0 where
  pub meter : Meter
  pub last_usage_publish_ms : ℕ

-- `publishUsageStats`: does it go out? `published` is what the MQTT client says.
abbrev pub publish_usage_stats : Bool → Bool → Bool → Bool
publish_usage_stats ready connected published =
    if not ready || not connected then false else published

-- `tickFn`: the new state and the bytes written to the meter's line.
unfoldable pub tick : ℕ → List ℕ → (ready connected published : Bool) → Reporter → Reporter × List ℕ
tick now arrived ready connected published r =
    let (asked, written) = request_sample now r.meter in
    let due = r.last_usage_publish_ms == 0 || leb 60000 (elapsed now r.last_usage_publish_ms) in
    (
      record {
        meter = service_meter_serial now arrived asked;
        last_usage_publish_ms =
            if due && publish_usage_stats ready connected published
            then now
            else r.last_usage_publish_ms;
      },
      written,
    )
