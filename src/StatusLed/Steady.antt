-- ===== src/StatusLed/Steady.antt =====
-- What the LED shows, as its pattern, and the steps of a tick that keep it.
use forge_key.Prelude.{
  ◌≡◌, ◌≢◌, ◌⊎◌, inl, inr, refl, Bool, true, false, not, ◌&&◌, Option, some, List, ltb, leb,
  if◌then◌else◌, if_cases, if_both, elapsed, ap,
}
use forge_key.StatusLed.Pattern.{
  State, booting, provisioning, connected, BlinkPattern, pattern_for, pattern_blink_override,
}
use forge_key.StatusLed.Led.{Led, Effect, apply_pattern, resumed_pattern}
use forge_key.StatusLed.Tick.{
  Readings, expire, transition, tick_flash, tick_single, show, has_expired,
}

-- The pattern of the override or of the state; one that the override gave way to in the state
-- Booting is that of Connected.
abbrev pub Shows : Bool → State → BlinkPattern → Type 0
Shows on state p =
    (p ≡ (if on then pattern_blink_override else pattern_for state))
    ⊎ ((on ≡ false) × (state ≡ booting) × (p ≡ pattern_for connected))

pub record IsShown (s : Led) : Type 0 where
  pub shows : Shows s.blink_override s.state s.current_pattern
  pub no_followup : s.have_followup ≡ false

pub resumed-Shows : (state : State) → Shows false state (resumed_pattern state)
resumed-Shows State.booting = inr (refl, refl, refl)
resumed-Shows _ = inl refl

Shows-on :
    (on : Bool) (state state' : State) (p : BlinkPattern)
    → on ≡ true
    → Shows on state p
    → Shows on state' p
Shows-on true state state' p e (inl same) = inl same
Shows-on true state state' p e (inr (off, rest, same)) = cc
Shows-on false state state' p e shows = cc

Shows-off : (on : Bool) (state : State) → on ≡ false → Shows on state (pattern_for state)
Shows-off true state e = cc
Shows-off false state e = inl refl

no_table :
    (on : Bool) (state : State) (p : BlinkPattern)
    → Shows on state p
    → state ≢ provisioning
    → ltb 0 p.phase_count ≡ false
no_table on state p (inr (off, start, same)) out = rw same
no_table true state p (inl same) out = rw same
no_table false State.provisioning p (inl same) out = absurd (out refl)
no_table false State.booting p (inl same) out = rw same
no_table false _ p (inl same) out = rw same

-- Neither the state nor the one that is requested is Provisioning.
pub record IsOut (s : Led) : Type 0 where
  pub state_out : s.state ≢ provisioning
  pub pending_out : s.pending_transition ≢ provisioning

abbrev pub IsFine : Led → Type 0
IsFine s = IsShown s × IsOut s

pub expire-IsFine : (r : Readings) (s : Led) → IsFine s → IsFine (expire true r s).0
unfolding expire apply_pattern
expire-IsFine r s (shown, out) =
    if_cases (λ (p : Led × List Effect). IsFine p.0) (has_expired r.expiry s)
      (λ e. (
        record { shows = resumed-Shows s.state; no_followup = shown.no_followup },
        record { state_out = out.state_out; pending_out = out.pending_out },
      ))
      (λ e. (shown, out))

pub transition-IsFine : (r : Readings) (s : Led) → IsFine s → IsFine (transition true r s).0
unfolding transition apply_pattern
transition-IsFine r s (shown, out) =
    if_cases (λ (p : Led × List Effect). IsFine p.0) s.have_transition
      (λ e.
        if_cases IsFine s.blink_override
          (λ on. (
            record {
              shows =
                  Shows-on s.blink_override s.state s.pending_transition s.current_pattern on
                    shown.shows;
              no_followup = refl;
            },
            record { state_out = out.pending_out; pending_out = out.pending_out },
          ))
          (λ off. (
            record {
              shows = Shows-off s.blink_override s.pending_transition off;
              no_followup = refl;
            },
            record { state_out = out.pending_out; pending_out = out.pending_out },
          )))
      (λ e. (shown, out))

tick_flash-IsFine : (r : Readings) (s : Led) → IsFine s → IsFine (tick_flash true r s)
unfolding tick_flash apply_pattern
tick_flash-IsFine r s (shown, out) =
    if_both IsFine (leb 500 (elapsed r.now s.flash_start_ms))
      (
        record { shows = inl refl; no_followup = shown.no_followup },
        record { state_out = out.state_out; pending_out = out.pending_out },
      )
      (if_both IsFine (leb 100 (elapsed r.now s.last_toggle))
        (
          record { shows = shown.shows; no_followup = shown.no_followup },
          record { state_out = out.state_out; pending_out = out.pending_out },
        )
        (shown, out))

tick_single-IsFine : (r : Readings) (s : Led) → IsFine s → IsFine (tick_single r s)
unfolding tick_single
tick_single-IsFine r s (shown, out) =
    let P : Led → Type 0 = IsFine in
    if_both P
      (leb (if s.led_on_now then s.current_pattern.on_ms else s.current_pattern.off_ms)
        (elapsed r.now s.last_toggle))
      (if_both P s.led_on_now
        (
          record { shows = shown.shows; no_followup = shown.no_followup },
          record { state_out = out.state_out; pending_out = out.pending_out },
        )
        (
          record { shows = shown.shows; no_followup = shown.no_followup },
          record { state_out = out.state_out; pending_out = out.pending_out },
        ))
      (shown, out)

-- The model goes on, in a state that is fine.
abbrev pub Returns : Option Led → Type 0
Returns o = (t : Led) × (o ≡ some t) × IsFine t

pub show-Returns : (r : Readings) (s : Led) → IsFine s → Returns (show true r s)
unfolding show
show-Returns r s (shown, out) =
    let single = no_table s.blink_override s.state s.current_pattern shown.shows out.state_out in
    if_both Returns (s.message_flash_active && not s.blink_override)
      (tick_flash true r s, refl, tick_flash-IsFine r s (shown, out))
      (if_both Returns s.pattern_complete (s, ap some (rw shown.no_followup), (shown, out))
        (rw single (tick_single r s, refl, tick_single-IsFine r s (shown, out))))
