-- ===== src/EspLock/Lockout.antt =====
-- The operator's lockout.
use forge_key.Prelude.{ℕ, ◌≡◌, ◌∙◌, ap, refl, true, false, List, [], ◌∷◌, arith, ℤ, Text, All}
use forge_key.Command.Auth.{Libraries, Device}
use forge_key.EspLock.State.{
  State, initializing, secure, unlocked, accessing, alarm, lockout, commissioning, Lock, initial,
  begin,
}
use forge_key.EspLock.Tick.{Inputs, lock_gpio_read, end_pulse, step, update_local_status_led, tick}
use forge_key.EspLock.Orders.{
  open_lock, handle_unlock, set_lockout, start_commissioning, ack_initialization,
  handle_emergency_unlock,
}

-- One operation of the lock, with its reading of the clock.
pub data Call : Type 0 where
  ticks : ℕ → Inputs → Call
  unlocks : Device → Text → ℤ → ℕ → Call
  locks_out clears commissions acknowledges emergencies : ℕ → Call

-- Neither the operator's release nor an emergency.
abbrev pub IsHeld : Call → Type 0
IsHeld (clears now) = ⊥
IsHeld (emergencies now) = ⊥
IsHeld (ticks now i) = Unit
IsHeld (unlocks d token timestamp now) = Unit
IsHeld (locks_out now) = Unit
IsHeld (commissions now) = Unit
IsHeld (acknowledges now) = Unit

-- Locked out, with no pulse and no power at the solenoid.
pub record IsLockedOut (l : Lock) : Type 0 where
  pub state_lockout : l.state ≡ lockout
  pub no_pulse : l.solenoid_active ≡ false
  pub unpowered : l.solenoid_on ≡ false

-- Power only within a pulse.
abbrev IsValid : Lock → Type 0
IsValid l = l.solenoid_on ≡ true → l.solenoid_active ≡ true

step-solenoid :
    (s : State) (now : ℕ) (l : Lock)
    → ((step s now l).solenoid_on ≡ l.solenoid_on)
      × ((step s now l).solenoid_active ≡ l.solenoid_active)
      × ((step s now l).guard_depth ≡ l.guard_depth)
unfolding step
step-solenoid initializing now l = (refl, refl, refl)
step-solenoid secure now l = ground arith
step-solenoid unlocked now l = ground arith
step-solenoid accessing now l = ground arith
step-solenoid alarm now l = ground arith
step-solenoid lockout now l = (refl, refl, refl)
step-solenoid commissioning now l = (refl, refl, refl)

led_fields :
    (now : ℕ) (l : Lock)
    → ((update_local_status_led now l).solenoid_on ≡ l.solenoid_on)
      × ((update_local_status_led now l).solenoid_active ≡ l.solenoid_active)
      × ((update_local_status_led now l).guard_depth ≡ l.guard_depth)
      × ((update_local_status_led now l).state ≡ l.state)
      × ((update_local_status_led now l).last_trigger ≡ l.last_trigger)
unfolding update_local_status_led
led_fields now l = ground arith

-- What a tick leaves of the pulse: that of `end_pulse`.
pub tick-pulse :
    (now : ℕ) (i : Inputs) (l : Lock)
    → ((tick now i l).solenoid_on ≡ (end_pulse now l).solenoid_on)
      × ((tick now i l).solenoid_active ≡ (end_pulse now l).solenoid_active)
      × ((tick now i l).guard_depth ≡ (end_pulse now l).guard_depth)
unfolding tick lock_gpio_read end_pulse
tick-pulse now i l =
    let pulsed = end_pulse now (lock_gpio_read now i l) in
    ground
      (arith, led_fields now (step pulsed.state now pulsed), step-solenoid pulsed.state now pulsed)

abbrev pub pulsed : ℕ → Inputs → Lock → Lock
pulsed now i l = end_pulse now (lock_gpio_read now i l)

pub pulsed-state : (now : ℕ) (i : Inputs) (l : Lock) → (pulsed now i l).state ≡ l.state
unfolding end_pulse lock_gpio_read
pulsed-state now i l = ground arith

-- What a tick makes of the state: a step from the pins as they are read.
pub tick-step :
    (now : ℕ) (i : Inputs) (l : Lock)
    → ((tick now i l).state ≡ (step l.state now (pulsed now i l)).state)
      × ((tick now i l).last_trigger ≡ (step l.state now (pulsed now i l)).last_trigger)
unfolding tick
tick-step now i l =
    let p = pulsed now i l in
    let led = led_fields now (step p.state now p) in
    (
      led.3 ∙ ap (λ s. (step s now p).state) (pulsed-state now i l),
      led.4 ∙ ap (λ s. (step s now p).last_trigger) (pulsed-state now i l),
    )

tick-lockout :
    (now : ℕ) (i : Inputs) (l : Lock) → l.state ≡ lockout → (tick now i l).state ≡ lockout
unfolding step
tick-lockout now i l e =
    (tick-step now i l).0
    ∙ (ap (λ s. (step s now (pulsed now i l)).state) e ∙ (pulsed-state now i l ∙ e))

module _ (lib : Libraries) where
  abbrev pub call : Lock → Call → Lock
  call l (ticks now i) = tick now i l
  call l (unlocks d token timestamp now) = (handle_unlock lib d token timestamp now l).0
  call l (locks_out now) = set_lockout true now l
  call l (clears now) = set_lockout false now l
  call l (commissions now) = (start_commissioning now l).0
  call l (acknowledges now) = (ack_initialization now l).0
  call l (emergencies now) = handle_emergency_unlock now l

  unfoldable pub calls : Lock → List Call → Lock
  calls l [] = l
  calls l (c ∷ cs) = calls (call l c) cs

  call-IsValid : (l : Lock) (c : Call) → IsValid l → IsValid (call l c)
  unfolding handle_unlock set_lockout start_commissioning ack_initialization handle_emergency_unlock
      open_lock end_pulse
  call-IsValid l (ticks now i) v = ground (arith, tick-pulse now i l)
  call-IsValid l (unlocks d token timestamp now) v = ground arith
  call-IsValid l (locks_out now) v = ground arith
  call-IsValid l (clears now) v = v
  call-IsValid l (commissions now) v = ground arith
  call-IsValid l (acknowledges now) v = ground arith
  call-IsValid l (emergencies now) v = λ _. refl

  calls-IsValid : (l : Lock) (cs : List Call) → IsValid l → IsValid (calls l cs)
  unfolding calls
  calls-IsValid l [] v = v
  calls-IsValid l (c ∷ cs) v = calls-IsValid (call l c) cs (call-IsValid l c v)

  call-IsLockedOut : (l : Lock) (c : Call) → IsHeld c → IsLockedOut l → IsLockedOut (call l c)
  unfolding handle_unlock set_lockout start_commissioning ack_initialization end_pulse
  call-IsLockedOut l (ticks now i) h s =
      ground
        (arith, tick-pulse now i l, tick-lockout now i l s.state_lockout, s.no_pulse, s.unpowered)
  call-IsLockedOut l (unlocks d token timestamp now) h s = ground (arith, s.state_lockout)
  call-IsLockedOut l (locks_out now) h s = ground arith
  call-IsLockedOut l (commissions now) h s = ground arith
  call-IsLockedOut l (acknowledges now) h s = ground arith
  call-IsLockedOut l (clears now) h s = absurd h
  call-IsLockedOut l (emergencies now) h s = absurd h

  calls-IsLockedOut :
      (l : Lock) (cs : List Call) → All IsHeld cs → IsLockedOut l → IsLockedOut (calls l cs)
  unfolding calls
  calls-IsLockedOut l [] h s = s
  calls-IsLockedOut l (c ∷ cs) h s =
      calls-IsLockedOut (call l c) cs h.1 (call-IsLockedOut l c h.0 s)

  set_lockout-IsLockedOut : (now : ℕ) (l : Lock) → IsValid l → IsLockedOut (set_lockout true now l)
  unfolding set_lockout
  set_lockout-IsLockedOut now l v = ground arith

  begin-IsValid : (now : ℕ) → IsValid (begin now initial)
  unfolding begin initial
  begin-IsValid now e = cc

  -- An operator's lockout holds. Whatever the lock did since its start, once it is locked out its
  -- solenoid is unpowered and no pulse runs, and through all later ticks, unlock commands,
  -- commissionings, acknowledgements and further lockouts it stays in LOCKOUT, unpowered; only a
  -- release or an emergency unlock ends this.
  pub lockout_holds :
      (started now : ℕ) (before after : List Call)
      → All IsHeld after
      → IsLockedOut (calls (set_lockout true now (calls (begin started initial) before)) after)
  lockout_holds started now before after h = calls-IsLockedOut _ after h (
      set_lockout-IsLockedOut now _
        (calls-IsValid (begin started initial) before (begin-IsValid started)))
