-- ===== src/StatusLed/Calls.antt =====
-- The calls of the LED as values, and runs of them.
use forge_key.Prelude.{ℕ, Bool, Option, none, some, List, [], ◌∷◌, true}
use mathlib.Core.Option
use forge_key.StatusLed.Pattern.{State}
use forge_key.StatusLed.Led.{
  Led, trigger_message_flash, request_state, set_blink_override, set_blink_override_timed,
  consume_blink_override_expired,
}
use forge_key.StatusLed.Tick
use forge_key.StatusLed.Tick.{Readings}

pub data Call : Type 0 where
  tick : Readings → Call
  request : State → Call
  flash : ℕ → ℕ → Call
  override : ℕ → Bool → Call
  override_timed : ℕ → ℕ → ℕ → Call
  consume : Call

-- A call on a board with an LED; `none` where a table is read past its end.
unfoldable pub step : Call → Led → Option Led
step (tick r) s = Option.map (λ t. t.0) (Tick.tick true r s)
step (request state) s = some (request_state state s)
step (flash start toggled) s = some (trigger_message_flash true start toggled s).0
step (override now on) s = some (set_blink_override true now on s).0
step (override_timed now start duration_ms) s =
    some (set_blink_override_timed true now start duration_ms s).0
step consume s = some (consume_blink_override_expired s).0

unfoldable pub run : List Call → Led → Option Led
run [] s = some s
run (call ∷ calls) s = elim (step call s) [ none ↦ none | some t ↦ run calls t ]
