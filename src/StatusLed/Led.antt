-- ===== src/StatusLed/Led.antt =====
-- The globals of the LED, and the functions that other parts call.
use forge_key.Prelude.{
  ℕ, ◌+◌, Bool, true, false, not, none, some, List, [], ◌∷◌, ltb, if◌then◌else◌, get_elem?, u32,
}
use forge_key.StatusLed.Pattern.{
  State, booting, connected, BlinkPattern, pattern_for, pattern_blink_override,
}

-- The globals; `lit` is the level last written to the pin, as on or off.
pub record Led : Type 0 where
  pub state : State
  pub pending_transition : State
  pub have_transition : Bool
  pub current_pattern : BlinkPattern
  pub followup_pattern : BlinkPattern
  pub have_followup : Bool
  pub last_toggle : ℕ
  pub led_on_now : Bool
  pub blink_count : ℕ
  pub pattern_complete : Bool
  pub current_phase : ℕ
  pub phase_start_ms : ℕ
  pub cycle_count : ℕ
  pub message_flash_active : Bool
  pub flash_start_ms : ℕ
  pub flash_led_on : Bool
  pub blink_override : Bool
  pub blink_override_expires_ms : ℕ
  pub blink_override_expired : Bool
  pub lit : Bool

-- The initial values of the globals.
unfoldable pub initial : Led
initial = record {
  state = booting;
  pending_transition = booting;
  have_transition = false;
  current_pattern = pattern_for booting;
  followup_pattern = pattern_for connected;
  have_followup = false;
  last_toggle = 0;
  led_on_now = false;
  blink_count = 0;
  pattern_complete = false;
  current_phase = 0;
  phase_start_ms = 0;
  cycle_count = 0;
  message_flash_active = false;
  flash_start_ms = 0;
  flash_led_on = false;
  blink_override = false;
  blink_override_expires_ms = 0;
  blink_override_expired = false;
  lit = false;
}

-- The calls of the status matrix.
pub data Effect : Type 0 where
  matrix_flash : Effect
  matrix_identify : Bool → Effect
  matrix_state : State → Effect

abbrev starts_on : BlinkPattern → Bool
starts_on p =
    if ltb 0 p.phase_count
    then elim (get_elem? p.phases 0) [ none ↦ false | some duration ↦ ltb 0 duration ]
    else ltb 0 p.on_ms

-- `available` is ledAvailable(), and `now` the reading of the clock; a table has a first phase.
unfoldable pub apply_pattern : Bool → ℕ → BlinkPattern → Led → Led
apply_pattern available now p s = if not available then s else record s {
  current_pattern = p;
  blink_count = 0;
  pattern_complete = false;
  current_phase = 0;
  cycle_count = 0;
  phase_start_ms = 0;
  led_on_now = starts_on p;
  lit = starts_on p;
  last_toggle = now;
}

-- `start` and `toggled` are its two readings of the clock.
unfoldable pub trigger_message_flash : Bool → ℕ → ℕ → Led → Led × List Effect
trigger_message_flash available start toggled s =
    if not available
    then (s, matrix_flash ∷ [])
    else if s.blink_override
    then (s, matrix_flash ∷ [])
    else (
      record s {
        message_flash_active = true;
        flash_start_ms = start;
        flash_led_on = true;
        lit = true;
        last_toggle = toggled;
      },
      matrix_flash ∷ [],
    )

unfoldable pub request_state : State → Led → Led
request_state requested s = record s { pending_transition = requested; have_transition = true }

-- The pattern that an override gives way to.
abbrev pub resumed_pattern : State → BlinkPattern
resumed_pattern State.booting = pattern_for connected
resumed_pattern state = pattern_for state

-- The LED, the calls of the matrix, and whether the override changed.
unfoldable pub set_blink_override : Bool → ℕ → Bool → Led → Led × List Effect × Bool
set_blink_override available now on s =
    let switched = record s { blink_override = on; blink_override_expires_ms = 0 } in
    if not available
    then (s, [], false)
    else if on
    then (if s.blink_override then (s, [], false) else (
      apply_pattern available now pattern_blink_override switched,
      matrix_identify true ∷ [],
      true,
    ))
    else if s.blink_override
    then (
      apply_pattern available now (resumed_pattern s.state) switched,
      matrix_identify false ∷ [],
      true,
    )
    else (record s { blink_override_expires_ms = 0 }, [], false)

-- `now` is the reading of `applyPattern`, `start` the one that the duration is added to.
unfoldable pub set_blink_override_timed : Bool → ℕ → ℕ → ℕ → Led → Led × List Effect × Bool
set_blink_override_timed available now start duration_ms s =
    let expires = if ltb 0 duration_ms then u32 (start + duration_ms) else 0 in
    if not available
    then (s, [], false)
    else if s.blink_override
    then (record s { blink_override_expires_ms = expires }, [], false)
    else (
      record (apply_pattern available now pattern_blink_override
          (record s { blink_override = true })) { blink_override_expires_ms = expires },
      matrix_identify true ∷ [],
      true,
    )

unfoldable pub consume_blink_override_expired : Led → Led × Bool
consume_blink_override_expired s =
    if s.blink_override_expired
    then (record s { blink_override_expired = false }, true)
    else (s, false)

unfoldable pub setup : Bool → ℕ → Led → Led
setup available now s =
    apply_pattern available now (pattern_for booting) (record s { lit = false; state = booting })
