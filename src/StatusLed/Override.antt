-- ===== src/StatusLed/Override.antt =====
-- The level of the LED under the operator's override.
use forge_key.Prelude.{
  ◌≡◌, refl, ◌+◌, ℕ, sym, ap, ◌∙◌, Bool, true, false, not, ◌&&◌, Option, none, some, List, [], ◌∷◌,
  ltb, leb, if◌then◌else◌, if_cases, if_both, elapsed, get_elem?, subst, ℕ, ◌+◌,
}
use mathlib.Core.Option
use forge_key.StatusLed.Pattern.{pattern_blink_override}
use forge_key.StatusLed.Led.{
  Led, Effect, apply_pattern, trigger_message_flash, request_state, set_blink_override,
  set_blink_override_timed, consume_blink_override_expired,
}
use forge_key.StatusLed.Tick
use forge_key.StatusLed.Tick.{
  Readings, expire, transition, tick_flash, tick_phases, tick_single, next_phase, show, has_expired,
}
use forge_key.StatusLed.Calls.{
  Call, tick, request, flash, override, override_timed, consume, step, run,
}

-- The override's pattern is in force and has not come to its end, and the pin has its level.
pub record InForce (s : Led) : Type 0 where
  pub level : s.lit ≡ s.led_on_now
  pub goes_on : s.pattern_complete ≡ false
  pub pattern : s.current_pattern ≡ pattern_blink_override

abbrev pub IsLevel : Led → Type 0
IsLevel s = s.blink_override ≡ true → InForce s

-- What holds of the state, if there is one.
abbrev Holds : (Led → Type 0) → Option Led → Type 0
Holds P none = Unit
Holds P (some s) = P s

off-IsLevel : (s : Led) → s.blink_override ≡ false → IsLevel s
off-IsLevel s off on = cc

expire-IsLevel : (r : Readings) (s : Led) → IsLevel s → IsLevel (expire true r s).0
unfolding expire apply_pattern
expire-IsLevel r s h =
    if_both (λ (p : Led × List Effect). IsLevel p.0) (has_expired r.expiry s) (λ on. cc) h

transition-IsLevel : (r : Readings) (s : Led) → IsLevel s → IsLevel (transition true r s).0
unfolding transition apply_pattern
transition-IsLevel r s h =
    if_both (λ (p : Led × List Effect). IsLevel p.0) s.have_transition
      (if_cases IsLevel s.blink_override
        (λ on k.
          let f = h on in record { level = f.level; goes_on = f.goes_on; pattern = f.pattern })
        (λ off on. cc))
      h

abbrev KeepsOverride : Bool → Led → Type 0
KeepsOverride b t = t.blink_override ≡ b

tick_phases-KeepsOverride :
    (r : Readings) (s : Led) → Holds (KeepsOverride s.blink_override) (tick_phases r s)
unfolding tick_phases next_phase
tick_phases-KeepsOverride r s = by_phase (get_elem? s.current_pattern.phases s.current_phase) refl
  where
    by_phase :
        (o : Option ℕ)
        → get_elem? s.current_pattern.phases s.current_phase ≡ o
        → Holds (KeepsOverride s.blink_override) (tick_phases r s)
    by_phase none e = rw (e, tick_phases) tt
    by_phase (some duration) e =
        let P : Led → Type 0 = KeepsOverride s.blink_override in
        rw (e, tick_phases)
          (if_both P (leb duration (elapsed r.now s.phase_start_ms))
            (if_both P (leb s.current_pattern.phase_count (s.current_phase + 1))
              (if_both P
                (ltb 0 s.current_pattern.count && leb s.current_pattern.count (s.cycle_count + 1))
                refl refl)
              refl)
            refl)

show-KeepsOverride :
    (r : Readings) (s : Led) → Holds (KeepsOverride s.blink_override) (show true r s)
unfolding show tick_flash tick_single apply_pattern
show-KeepsOverride r s =
    let P : Led → Type 0 = KeepsOverride s.blink_override in
    let O : Option Led → Type 0 = Holds P in
    if_both O (s.message_flash_active && not s.blink_override)
      (if_both P (leb 500 (elapsed r.now s.flash_start_ms)) refl
        (if_both P (leb 100 (elapsed r.now s.last_toggle)) refl refl))
      (if_both O s.pattern_complete (if_both P s.have_followup refl refl) (
        if_both O (ltb 0 s.current_pattern.phase_count) (tick_phases-KeepsOverride r s) (
          if_both P
            (leb (if s.led_on_now then s.current_pattern.on_ms else s.current_pattern.off_ms)
              (elapsed r.now s.last_toggle))
            (if_both P s.led_on_now refl refl) refl)))

-- The level after a tick under the override: the other one where 750 ms have passed since it was
-- last switched.
abbrev pub switched : Readings → Led → Bool
switched r s = if leb 750 (elapsed r.now s.last_toggle) then not s.lit else s.lit

abbrev Blinks : Readings → Led → Led → Type 0
Blinks r s t = InForce t × (t.lit ≡ switched r s)

no_flash : (a b : Bool) → b ≡ true → (a && not b) ≡ false
no_flash true b h = rw h refl
no_flash false b h = refl

show-single :
    (r : Readings) (s : Led)
    → s.blink_override ≡ true
    → InForce s
    → show true r s ≡ some (tick_single r s)
unfolding show
show-single r s on f =
    let no_table : ltb 0 s.current_pattern.phase_count ≡ false = rw f.pattern refl in
    rw (no_flash s.message_flash_active s.blink_override on, f.goes_on, no_table, show) refl

tick_single-Blinks : (r : Readings) (s : Led) → InForce s → Blinks r s (tick_single r s)
unfolding tick_single
tick_single-Blinks r s f =
    let late : Bool =
      leb (if s.led_on_now then s.current_pattern.on_ms else s.current_pattern.off_ms)
        (elapsed r.now s.last_toggle) in
    let same_time : (if s.led_on_now then s.current_pattern.on_ms else s.current_pattern.off_ms)
        ≡ 750 =
      rw f.pattern (if_both (λ (n : ℕ). n ≡ 750) s.led_on_now refl refl) in
    let at_750 : late ≡ leb 750 (elapsed r.now s.last_toggle) =
      ap (λ (n : ℕ). leb n (elapsed r.now s.last_toggle)) same_time in
    let endless : ltb 0 s.current_pattern.count ≡ false = rw f.pattern refl in
    if_cases (Blinks r s) late
      (λ e.
        let toggles : switched r s ≡ not s.lit = rw (sym at_750 ∙ e) refl in
        if_cases (Blinks r s) s.led_on_now
          (λ on. (
            record { level = refl; goes_on = rw endless f.goes_on; pattern = f.pattern },
            sym (toggles ∙ ap not (f.level ∙ on)),
          ))
          (λ off. (
            record { level = refl; goes_on = f.goes_on; pattern = f.pattern },
            sym (toggles ∙ ap not (f.level ∙ off)),
          )))
      (λ e. (f, sym (rw (sym at_750 ∙ e) refl)))

show-IsLevel : (r : Readings) (s : Led) → IsLevel s → Holds IsLevel (show true r s)
show-IsLevel r s h = by_result (show true r s) refl
  where
    by_result : (o : Option Led) → show true r s ≡ o → Holds IsLevel o
    by_result none e = tt
    by_result (some t) e = λ on.
        let was_on : s.blink_override ≡ true =
          sym (subst (Holds (KeepsOverride s.blink_override)) e (show-KeepsOverride r s)) ∙ on in
        subst (Holds InForce) (sym (show-single r s was_on (h was_on)) ∙ e)
          (tick_single-Blinks r s (h was_on)).0

abbrev Levelled : Led × List Effect × Bool → Type 0
Levelled p = IsLevel p.0

applied-IsLevel : (now : ℕ) (s : Led) → IsLevel (apply_pattern true now pattern_blink_override s)
unfolding apply_pattern
applied-IsLevel now s on = record { level = refl; goes_on = refl; pattern = refl }

override-IsLevel :
    (now : ℕ) (on : Bool) (s : Led) → IsLevel s → IsLevel (set_blink_override true now on s).0
unfolding set_blink_override
override-IsLevel now true s h =
    if_both Levelled s.blink_override h
      (applied-IsLevel now (record s { blink_override = true; blink_override_expires_ms = 0 }))
override-IsLevel now false s h =
    if_both Levelled s.blink_override (unfold apply_pattern in λ on. cc)
      (λ on. let f = h on in record { level = f.level; goes_on = f.goes_on; pattern = f.pattern })

override_timed-IsLevel :
    (now start duration_ms : ℕ) (s : Led)
    → IsLevel s
    → IsLevel (set_blink_override_timed true now start duration_ms s).0
unfolding set_blink_override_timed
override_timed-IsLevel now start duration_ms s h =
    if_both Levelled s.blink_override
      (λ on. let f = h on in record { level = f.level; goes_on = f.goes_on; pattern = f.pattern })
      (λ on.
        let f = applied-IsLevel now (record s { blink_override = true }) on in
        record { level = f.level; goes_on = f.goes_on; pattern = f.pattern })

flash-IsLevel :
    (start toggled : ℕ) (s : Led)
    → IsLevel s
    → IsLevel (trigger_message_flash true start toggled s).0
unfolding trigger_message_flash
flash-IsLevel start toggled s h =
    if_cases (λ (p : Led × List Effect). IsLevel p.0) s.blink_override (λ on. h) (λ off on. cc)

consume-IsLevel : (s : Led) → IsLevel s → IsLevel (consume_blink_override_expired s).0
unfolding consume_blink_override_expired
consume-IsLevel s h =
    if_both (λ (p : Led × Bool). IsLevel p.0) s.blink_override_expired
      (λ on. let f = h on in record { level = f.level; goes_on = f.goes_on; pattern = f.pattern }) h

tick-IsLevel : (r : Readings) (s : Led) → IsLevel s → Holds IsLevel (step (tick r) s)
unfolding step Tick.tick
tick-IsLevel r s h =
    let resumed = (expire true r s).0 in
    let settled = (transition true r resumed).0 in
    by_show (show true r settled) _
      (show-IsLevel r settled (transition-IsLevel r resumed (expire-IsLevel r s h)))
  where
    by_show :
        (o : Option Led) (es : List Effect)
        → Holds IsLevel o
        → Holds IsLevel (
            Option.map
              (λ (p : Led × List Effect). p.0)
              (elim o [ none ↦ none | some t ↦ some (t, es) ]))
    by_show none es k = tt
    by_show (some t) es k = k

step-IsLevel : (call : Call) (s : Led) → IsLevel s → Holds IsLevel (step call s)
unfolding step request_state
step-IsLevel (tick r) s h = tick-IsLevel r s h
step-IsLevel (request state) s h =
    λ on. let f = h on in record { level = f.level; goes_on = f.goes_on; pattern = f.pattern }
step-IsLevel (flash start toggled) s h = flash-IsLevel start toggled s h
step-IsLevel (override now on) s h = override-IsLevel now on s h
step-IsLevel (override_timed now start duration_ms) s h =
    override_timed-IsLevel now start duration_ms s h
step-IsLevel consume s h = consume-IsLevel s h

Holds-bind :
    (o : Option Led) (f : Led → Option Led)
    → Holds IsLevel o
    → ((t : Led) → IsLevel t → Holds IsLevel (f t))
    → Holds IsLevel (elim o [ none ↦ none | some t ↦ f t ])
Holds-bind none f h k = tt
Holds-bind (some t) f h k = k t h

pub run-IsLevel : (calls : List Call) (s t : Led) → IsLevel s → run calls s ≡ some t → IsLevel t
unfolding run
run-IsLevel calls s t h e = subst (Holds IsLevel) e (all calls s h)
  where
    all : (calls : List Call) (s : Led) → IsLevel s → Holds IsLevel (run calls s)
    all [] s h = h
    all (call ∷ calls) s h =
        Holds-bind (step call s) (run calls) (step-IsLevel call s h) (all calls)

-- The level that the pin has after a tick.
abbrev pub lit_after : Option (Led × List Effect) → Option Bool
lit_after none = none
lit_after (some (t, es)) = some t.lit

expire-none : (r : Readings) (s : Led) → has_expired r.expiry s ≡ false → expire true r s ≡ (s, [])
unfolding expire
expire-none r s lasts = rw lasts refl

transition-switched :
    (r : Readings) (s : Led)
    → s.blink_override ≡ true
    → ((transition true r s).0.blink_override ≡ true)
      × (switched r (transition true r s).0 ≡ switched r s)
unfolding transition apply_pattern
transition-switched r s on =
    let P : Led → Type 0 = λ t. (t.blink_override ≡ true) × (switched r t ≡ switched r s) in
    if_both (λ (p : Led × List Effect). P p.0) s.have_transition
      (if_cases P s.blink_override (λ on'. (on, refl)) (λ off. cc)) (on, refl)

-- Under the override a tick that does not end it switches the LED as the override blinks.
pub tick-Blinks :
    (r : Readings) (s : Led)
    → IsLevel s
    → s.blink_override ≡ true
    → has_expired r.expiry s ≡ false
    → lit_after (Tick.tick true r s) ≡ some (switched r s)
unfolding Tick.tick
tick-Blinks r s h on lasts =
    let settled = (transition true r s).0 in
    let (still_on, same) = transition-switched r s on in
    let f = transition-IsLevel r s h still_on in
    rw (expire-none r s lasts, show-single r settled still_on f, Tick.tick, lit_after)
      (ap some ((tick_single-Blinks r settled f).1 ∙ same))
