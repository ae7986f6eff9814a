-- ===== src/StatusLed/Pattern.antt =====
-- The blink patterns, and the one of each state.
use forge_key.Prelude.{ℕ, List, [], ◌∷◌}

-- enum class State
pub data State : Type 0 where
  booting provisioning connected degraded ota error identify retired factory_reset : State

-- BlinkPattern; the list is the array behind `phases`.
pub record BlinkPattern : Type 0 where
  pub on_ms : ℕ
  pub off_ms : ℕ
  pub count : ℕ
  pub phase_count : ℕ
  pub phases : List ℕ

abbrev pub single : ℕ → ℕ → ℕ → BlinkPattern
single on off n = record { on_ms = on; off_ms = off; count = n; phase_count = 0; phases = [] }

-- PROVISIONING_PHASES
abbrev pub provisioning_phases : List ℕ
provisioning_phases = 300 ∷ 100 ∷ 300 ∷ 100 ∷ 100 ∷ 100 ∷ 300 ∷ 100 ∷ 200 ∷ 400 ∷ []

-- PATTERN_PROVISIONING
abbrev pub pattern_provisioning : BlinkPattern
pattern_provisioning = record {
  on_ms = 0;
  off_ms = 0;
  count = 0;
  phase_count = 11;
  phases = provisioning_phases;
}

-- PATTERN_BLINK_OVERRIDE
abbrev pub pattern_blink_override : BlinkPattern
pattern_blink_override = single 750 750 0

abbrev pub pattern_for : State → BlinkPattern
pattern_for State.booting = single 100 100 5
pattern_for State.provisioning = pattern_provisioning
pattern_for State.connected = single 50 2950 0
pattern_for State.degraded = single 120 880 0
pattern_for State.ota = single 100 100 0
pattern_for State.error = single 200 200 0
pattern_for State.identify = pattern_blink_override
pattern_for State.retired = single 1000 0 0
pattern_for State.factory_reset = single 100 100 10
