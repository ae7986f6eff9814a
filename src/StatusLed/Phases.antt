-- ===== src/StatusLed/Phases.antt =====
-- The table of the state Provisioning, which has ten phases where the pattern counts eleven.
use forge_key.Prelude.{
  ℕ, zero, suc, ◌+◌, ◌≤◌, ◌<◌, ◌≡◌, refl, ap, sym, ◌∙◌, subst, true, false, Option, none, some,
  List, [], ◌∷◌, ◌++◌, map, arith, leb, ltb, length, get_elem?, elapsed, if_cases,
}
use mathlib.Core.Option
use mathlib.Core.Bool.{false≢true}
use forge_key.StatusLed.Pattern.{
  provisioning, pattern_provisioning, provisioning_phases, BlinkPattern,
}
use forge_key.StatusLed.Led.{Led, Effect, apply_pattern, request_state}
use forge_key.StatusLed.Tick
use forge_key.StatusLed.Tick.{Readings, expire, transition, tick_phases, next_phase, show}
use forge_key.StatusLed.Calls.{Call, tick, request, step, run}

-- The LED shows a phase of the table, and nothing else is due.
record IsAt (phase : ℕ) (s : Led) : Type 0 where
  pattern : s.current_pattern ≡ pattern_provisioning
  at_phase : s.current_phase ≡ phase
  no_override : s.blink_override ≡ false
  no_flash : s.message_flash_active ≡ false
  running : s.pattern_complete ≡ false
  settled : s.have_transition ≡ false

-- Each tick comes 400 ms or more after the last, from a start on.
abbrev pub IsSpaced : ℕ → List Readings → Type 0
IsSpaced start [] = Unit
IsSpaced start (r ∷ rs) = (400 ≤ elapsed r.now start) × IsSpaced r.now rs

phases_short : (p : ℕ) → p < 10 → (d : ℕ) × (get_elem? provisioning_phases p ≡ some d) × (d ≤ 400)
phases_short zero h = (300, refl, omega arith)
phases_short (suc zero) h = (100, refl, omega arith)
phases_short (suc (suc zero)) h = (300, refl, omega arith)
phases_short (suc (suc (suc zero))) h = (100, refl, omega arith)
phases_short (suc (suc (suc (suc zero)))) h = (100, refl, omega arith)
phases_short (suc (suc (suc (suc (suc zero))))) h = (100, refl, omega arith)
phases_short (suc (suc (suc (suc (suc (suc zero)))))) h = (300, refl, omega arith)
phases_short (suc (suc (suc (suc (suc (suc (suc zero))))))) h = (100, refl, omega arith)
phases_short (suc (suc (suc (suc (suc (suc (suc (suc zero)))))))) h = (200, refl, omega arith)
phases_short (suc (suc (suc (suc (suc (suc (suc (suc (suc zero))))))))) h = (400, refl, omega arith)
phases_short (suc (suc (suc (suc (suc (suc (suc (suc (suc (suc p)))))))))) h = absurd (omega arith)

next_phase-IsAt :
    (now p : ℕ) (s : Led)
    → IsAt p s
    → IsAt (p + 1) (next_phase now (s.current_phase + 1) s)
      × ((next_phase now (s.current_phase + 1) s).phase_start_ms ≡ now)
unfolding next_phase
next_phase-IsAt now p s at = (
  record {
    pattern = at.pattern;
    at_phase = ap (λ n. n + 1) at.at_phase;
    no_override = at.no_override;
    no_flash = at.no_flash;
    running = at.running;
    settled = at.settled;
  },
  refl,
)

show-tick_phases : (r : Readings) (p : ℕ) (s : Led) → IsAt p s → show true r s ≡ tick_phases r s
unfolding show
show-tick_phases r p s at =
    let table : ltb 0 s.current_pattern.phase_count ≡ true =
      ap (λ (b : BlinkPattern). ltb 0 b.phase_count) at.pattern in
    ground (arith, at.no_flash, at.running, table)

looked_up :
    (p : ℕ) (s : Led)
    → IsAt p s
    → get_elem? s.current_pattern.phases s.current_phase ≡ get_elem? provisioning_phases p
looked_up p s at =
    ap (λ (b : BlinkPattern). get_elem? b.phases s.current_phase) at.pattern
    ∙ ap (get_elem? provisioning_phases) at.at_phase

-- A tick that comes late enough goes on to the next phase.
tick_phases-next :
    (r : Readings) (p : ℕ) (s : Led)
    → IsAt p s
    → p < 10
    → 400 ≤ elapsed r.now s.phase_start_ms
    → tick_phases r s ≡ some (next_phase r.now (s.current_phase + 1) s)
unfolding tick_phases
tick_phases-next r p s at few late =
    let (d, found, short) = phases_short p few in
    let duration = looked_up p s at ∙ found in
    let table : s.current_pattern.phase_count ≡ 11 =
      ap (λ (b : BlinkPattern). b.phase_count) at.pattern in
    let due : leb d (elapsed r.now s.phase_start_ms) ≡ true = ground (arith, short, late) in
    let more : leb s.current_pattern.phase_count (s.current_phase + 1) ≡ false =
      ground (arith, table, at.at_phase, few) in
    ground (arith, duration, due, more)

-- The eleventh phase is not there.
tick_phases-none : (r : Readings) (s : Led) → IsAt 10 s → tick_phases r s ≡ none
unfolding tick_phases
tick_phases-none r s at = let missing = looked_up 10 s at in ground (arith, missing)

expire-id : (r : Readings) (s : Led) → s.blink_override ≡ false → expire true r s ≡ (s, [])
unfolding expire
expire-id r s off = ground (arith, off)

transition-id : (r : Readings) (s : Led) → s.have_transition ≡ false → transition true r s ≡ (s, [])
unfolding transition
transition-id r s settled = ground (arith, settled)

forget_effects :
    (o : Option Led) (es : List Effect)
    → Option.map (λ (p : Led × List Effect). p.0) (elim o [ none ↦ none | some t ↦ some (t, es) ])
      ≡ o
forget_effects none es = refl
forget_effects (some t) es = refl

-- A tick is what `show` makes of the settled LED.
step-tick :
    (r : Readings) (s : Led)
    → step (tick r) s ≡ show true r (transition true r (expire true r s).0).0
unfolding step Tick.tick
step-tick r s =
    forget_effects (show true r (transition true r (expire true r s).0).0)
      ((expire true r s).1 ++ (transition true r (expire true r s).0).1)

step-tick_phases : (r : Readings) (p : ℕ) (s : Led) → IsAt p s → step (tick r) s ≡ tick_phases r s
step-tick_phases r p s at =
    step-tick r s
    ∙ ap (λ (q : Led × List Effect). show true r (transition true r q.0).0)
        (expire-id r s at.no_override)
    ∙ ap (λ (q : Led × List Effect). show true r q.0) (transition-id r s at.settled)
    ∙ show-tick_phases r p s at

abbrev continue_with : List Call → Option Led → Option Led
continue_with calls o = elim o [ none ↦ none | some t ↦ run calls t ]

ticks-none :
    (rs : List Readings) (last : Readings) (p : ℕ) (s : Led)
    → IsAt p s
    → IsSpaced s.phase_start_ms rs
    → p + length rs ≡ 10
    → run (map tick rs ++ tick last ∷ []) s ≡ none
unfolding run
ticks-none [] last p s at spaced total =
    let ten : p ≡ 10 = omega (arith, total) in
    ap (continue_with [])
      (step-tick_phases last p s at ∙ tick_phases-none last s (subst (λ n. IsAt n s) ten at))
ticks-none (r ∷ rs) last p s at (late, spaced) total =
    let t = next_phase r.now (s.current_phase + 1) s in
    let (at', start) = next_phase-IsAt r.now p s at in
    ap (continue_with (map tick rs ++ tick last ∷ []))
      (step-tick_phases r p s at ∙ tick_phases-next r p s at (omega (arith, total)) late)
    ∙ ticks-none rs last (p + 1) t at' (subst (λ n. IsSpaced n rs) (sym start) spaced)
        (omega (arith, total))

-- The state with its first phase applied.
settled-IsAt :
    (r : Readings) (s : Led)
    → s.blink_override ≡ false
    → s.message_flash_active ≡ false
    → let t = (transition true r (request_state provisioning s)).0 in
      IsAt 0 t × (t.phase_start_ms ≡ 0)
unfolding transition request_state apply_pattern
settled-IsAt r s off quiet =
    if_cases (λ (t : Led). IsAt 0 t × (t.phase_start_ms ≡ 0)) s.blink_override
      (λ on. absurd (false≢true (sym off ∙ on)))
      (λ still. (
        record {
          pattern = refl;
          at_phase = refl;
          no_override = off;
          no_flash = quiet;
          running = refl;
          settled = refl;
        },
        refl,
      ))

request_state-override :
    (s : Led) → (request_state provisioning s).blink_override ≡ s.blink_override
unfolding request_state
request_state-override s = refl

first_tick :
    (r : Readings) (s : Led)
    → s.blink_override ≡ false
    → s.message_flash_active ≡ false
    → 400 ≤ elapsed r.now 0
    → let t = (transition true r (request_state provisioning s)).0 in
      step (tick r) (request_state provisioning s) ≡ some (next_phase r.now (t.current_phase + 1) t)
first_tick r s off quiet late =
    let asked = request_state provisioning s in
    let applied = (transition true r asked).0 in
    let (at, start) = settled-IsAt r s off quiet in
    step-tick r asked
    ∙ ap (λ (q : Led × List Effect). show true r (transition true r q.0).0)
        (expire-id r asked (request_state-override s ∙ off))
    ∙ show-tick_phases r 0 applied at
    ∙ tick_phases-next r 0 applied at (omega arith)
        (subst (λ n. 400 ≤ elapsed r.now n) (sym start) late)

-- The state Provisioning reads its table past the end: once it is requested, and ten ticks have
-- come, each 400 ms or more after the one before and the first after the uptime 0, the next tick
-- reads an eleventh phase. No override and no flash is on.
pub provisioning_reads_past_end :
    (s : Led) (rs : List Readings) (last : Readings)
    → s.blink_override ≡ false
    → s.message_flash_active ≡ false
    → IsSpaced 0 rs
    → length rs ≡ 10
    → run (request provisioning ∷ map tick rs ++ tick last ∷ []) s ≡ none
unfolding run step
provisioning_reads_past_end s [] last off quiet spaced total = absurd (omega (arith, total))
provisioning_reads_past_end s (r ∷ rs) last off quiet (late, spaced) total =
    let asked = request_state provisioning s in
    let applied = (transition true r asked).0 in
    let (at, start) = settled-IsAt r s off quiet in
    let t = next_phase r.now (applied.current_phase + 1) applied in
    let (at', start') = next_phase-IsAt r.now 0 applied at in
    ap (continue_with (map tick rs ++ tick last ∷ [])) (first_tick r s off quiet late)
    ∙ ticks-none rs last 1 t (subst (λ n. IsAt n t) (omega arith) at')
        (subst (λ n. IsSpaced n rs) (sym start') spaced) (omega (arith, total))
