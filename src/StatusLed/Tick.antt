-- ===== src/StatusLed/Tick.antt =====
-- `tickFn` of the LED. A table that is read past its end ends the model with `none`.
use forge_key.Prelude.{
  ℕ, ◌+◌, ◌%◌, Bool, true, false, not, ◌&&◌, Option, none, some, List, [], ◌∷◌, ◌++◌, ltb, leb,
  ◌==◌, if◌then◌else◌, get_elem?, elapsed,
}
use forge_key.StatusLed.Pattern.{pattern_for, pattern_blink_override}
use forge_key.StatusLed.Led.{
  Led, Effect, matrix_identify, matrix_state, apply_pattern, resumed_pattern,
}

-- The readings of the clock in one tick: of the test for the end of the override, of the three
-- calls of `applyPattern` that it may make, and `now`.
pub record Readings : Type 0 where
  pub expiry : ℕ
  pub resumed : ℕ
  pub switched : ℕ
  pub now : ℕ
  pub applied : ℕ

-- (long)(millis() - g_blinkOverrideExpiresMs) >= 0
abbrev pub has_expired : ℕ → Led → Bool
has_expired now s =
    s.blink_override
    && not (s.blink_override_expires_ms == 0)
    && ltb (elapsed now s.blink_override_expires_ms) 2147483648

-- The end of a timed override.
unfoldable pub expire : Bool → Readings → Led → Led × List Effect
expire available r s =
    if has_expired r.expiry s
    then (
      apply_pattern available r.resumed (resumed_pattern s.state) (record s {
        blink_override = false;
        blink_override_expires_ms = 0;
        blink_override_expired = true;
      }),
      matrix_identify false ∷ [],
    )
    else (s, [])

-- A state that was requested.
unfoldable pub transition : Bool → Readings → Led → Led × List Effect
transition available r s =
    let t = record s {
      have_transition = false;
      state = s.pending_transition;
      have_followup = false;
    } in
    if s.have_transition
    then (
      (if s.blink_override
          then t
          else apply_pattern available r.switched (pattern_for s.pending_transition) t),
      matrix_state s.pending_transition ∷ [],
    )
    else (s, [])

unfoldable pub tick_flash : Bool → Readings → Led → Led
tick_flash available r s =
    if leb 500 (elapsed r.now s.flash_start_ms)
    then apply_pattern available r.applied
        (if s.blink_override then pattern_blink_override else pattern_for s.state)
        (record s { message_flash_active = false })
    else if leb 100 (elapsed r.now s.last_toggle)
    then record s {
      flash_led_on = not s.flash_led_on;
      lit = not s.flash_led_on;
      last_toggle = r.now;
    }
    else s

-- The next phase of a table: `phase` is the index after the one that has ended.
unfoldable pub next_phase : ℕ → ℕ → Led → Led
next_phase now phase s =
    let on = phase % 2 == 0 in
    record s {
      current_phase = phase;
      led_on_now = on;
      lit = on;
      phase_start_ms = now;
      last_toggle = now;
      blink_count = if on then s.blink_count + 1 else s.blink_count;
    }

unfoldable pub tick_phases : Readings → Led → Option Led
tick_phases r s = elim (get_elem? s.current_pattern.phases s.current_phase) [
  | none ↦ none
  | some duration ↦ some (
      if leb duration (elapsed r.now s.phase_start_ms)
      then (if leb s.current_pattern.phase_count (s.current_phase + 1)
          then (if ltb 0 s.current_pattern.count && leb s.current_pattern.count (s.cycle_count + 1)
              then record s {
                current_phase = 0;
                cycle_count = s.cycle_count + 1;
                pattern_complete = true;
                lit = false;
              }
              else next_phase r.now 0 (record s { cycle_count = s.cycle_count + 1 }))
          else next_phase r.now (s.current_phase + 1) s)
      else s)
]

unfoldable pub tick_single : Readings → Led → Led
tick_single r s =
    let ends = ltb 0 s.current_pattern.count && leb s.current_pattern.count (s.blink_count + 1) in
    if leb (if s.led_on_now then s.current_pattern.on_ms else s.current_pattern.off_ms)
      (elapsed r.now s.last_toggle)
    then (if s.led_on_now
        then record s {
          led_on_now = false;
          lit = false;
          last_toggle = r.now;
          blink_count = s.blink_count + 1;
          pattern_complete = if ends then true else s.pattern_complete;
        }
        else record s { led_on_now = true; lit = true; last_toggle = r.now })
    else s

-- What a tick does once the override and the state are settled.
unfoldable pub show : Bool → Readings → Led → Option Led
show available r s =
    if s.message_flash_active && not s.blink_override
    then some (tick_flash available r s)
    else if s.pattern_complete
    then some (
        if s.have_followup
        then apply_pattern available r.applied s.followup_pattern
            (record s { have_followup = false })
        else s)
    else if ltb 0 s.current_pattern.phase_count
    then tick_phases r s
    else some (tick_single r s)

unfoldable pub tick : Bool → Readings → Led → Option (Led × List Effect)
tick available r s =
    let (resumed, first) = expire available r s in
    let (settled, second) = transition available r resumed in
    elim (show available r settled) [ none ↦ none | some t ↦ some (t, first ++ second) ]
