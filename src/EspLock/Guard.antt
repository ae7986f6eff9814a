-- ===== src/EspLock/Guard.antt =====
-- The pulse of an unlock: the watchdog's pause, and what the next ticks make of the state.
use forge_key.Prelude.{
  ℕ, ◌+◌, ◌<◌, ◌≡◌, ◌∙◌, ap, Bool, true, false, List, [], ◌∷◌, arith, ℤ, Text, ◌⊎◌,
}
use forge_key.Command.Auth.{Libraries, Device}
use forge_key.EspLock.State.{signed_command, secure, unlocked, alarm, Trigger, Pin, Lock}
use forge_key.EspLock.Tick.{Inputs, lock_gpio_read, end_pulse, step, tick, is_secure}
use forge_key.EspLock.Orders.{open_lock, handle_unlock}
use forge_key.EspLock.Lockout.{tick-pulse, tick-step, pulsed}

-- Ticks in a row, each with its time and readings.
abbrev pub tick_all : Lock → List (ℕ × Inputs) → Lock
tick_all l [] = l
tick_all l ((now, i) ∷ ps) = tick_all (tick now i l) ps

-- The pause that a pulse of its own accounts for.
abbrev pulses : Bool → ℕ
pulses true = 1
pulses false = 0

tick-depth :
    (now : ℕ) (i : Inputs) (l : Lock) (k : ℕ)
    → l.guard_depth ≡ k + pulses l.solenoid_active
    → (tick now i l).guard_depth ≡ k + pulses (tick now i l).solenoid_active
unfolding end_pulse
tick-depth now i l k h = ground (arith, tick-pulse now i l)

tick_all-depth :
    (l : Lock) (ps : List (ℕ × Inputs)) (k : ℕ)
    → l.guard_depth ≡ k + pulses l.solenoid_active
    → (tick_all l ps).guard_depth ≡ k + pulses (tick_all l ps).solenoid_active
tick_all-depth l [] k h = h
tick_all-depth l ((now, i) ∷ ps) k h = tick_all-depth (tick now i l) ps k (tick-depth now i l k h)

pulsed-reads :
    (now : ℕ) (i : Inputs) (l : Lock)
    → ((pulsed now i l).reed_closed ≡ (lock_gpio_read now i l).reed_closed)
      × ((pulsed now i l).latch_locked ≡ (lock_gpio_read now i l).latch_locked)
unfolding end_pulse lock_gpio_read
pulsed-reads now i l = ground arith

step-unlocked_closed :
    (now : ℕ) (l : Lock) → is_secure l ≡ true → (step unlocked now l).state ≡ secure
unfolding step
step-unlocked_closed now l h = simp h

step-secure_ajar :
    (now : ℕ) (l : Lock) → l.reed_closed.value ≡ false → (step secure now l).state ≡ alarm
unfolding step
step-secure_ajar now l h = simp h

tick_closed :
    (now later : ℕ) (i : Inputs) (l : Lock) (t : Trigger)
    → is_secure (lock_gpio_read later i l) ≡ true
    → (tick later i (open_lock t now l)).state ≡ secure
unfolding open_lock lock_gpio_read
tick_closed now later i l t h =
    let o = open_lock t now l in
    let (reed, latch) = pulsed-reads later i o in
    (tick-step later i o).0 ∙ step-unlocked_closed later (pulsed later i o) (rw (reed, latch) h)

tick_ajar :
    (now : ℕ) (i : Inputs) (l : Lock)
    → l.state ≡ secure
    → (lock_gpio_read now i l).reed_closed.value ≡ false
    → (tick now i l).state ≡ alarm
tick_ajar now i l e h =
    (tick-step now i l).0
    ∙ (ap (λ s. (step s now (pulsed now i l)).state) e
        ∙ step-secure_ajar now (pulsed now i l)
            (ap (λ (p : Pin). p.value) (pulsed-reads now i l).0 ∙ h))

module _ (lib : Libraries) where
  -- An accepted unlock command opens the lock.
  accepted-open :
      (d : Device) (token : Text) (timestamp : ℤ) (now : ℕ) (l : Lock)
      → (handle_unlock lib d token timestamp now l).1 ≡ true
      → (handle_unlock lib d token timestamp now l).0 ≡ open_lock signed_command now l
  unfolding handle_unlock
  accepted-open d token timestamp now l h = ground arith

  opened-depth :
      (d : Device) (token : Text) (timestamp : ℤ) (now : ℕ) (l : Lock) (ps : List (ℕ × Inputs))
      → (handle_unlock lib d token timestamp now l).1 ≡ true
      → l.guard_depth < 255
      → let t = tick_all (handle_unlock lib d token timestamp now l).0 ps in
        t.guard_depth ≡ l.guard_depth + pulses t.solenoid_active
  unfolding open_lock
  opened-depth d token timestamp now l ps h few =
      rw (accepted-open d token timestamp now l h)
        (tick_all-depth (open_lock signed_command now l) ps l.guard_depth (ground arith))

  -- An unlock command that is accepted while no pulse runs pauses the watchdog for its pulse only:
  -- after any ticks the pauses are those from before, and one more while the pulse still runs.
  pub unlock_pauses :
      (d : Device) (token : Text) (timestamp : ℤ) (now : ℕ) (l : Lock) (ps : List (ℕ × Inputs))
      → (handle_unlock lib d token timestamp now l).1 ≡ true
      → l.guard_depth < 255
      → let t = tick_all (handle_unlock lib d token timestamp now l).0 ps in
        ((t.solenoid_active ≡ true) × (t.guard_depth ≡ l.guard_depth + 1))
        ⊎ ((t.solenoid_active ≡ false) × (t.guard_depth ≡ l.guard_depth))
  unlock_pauses d token timestamp now l ps h few =
      ground (arith, opened-depth d token timestamp now l ps h few)

  -- A second unlock command that is accepted while the pulse of a first one still runs leaves a pause
  -- of the watchdog behind: after any number of ticks the pauses are deeper than before the first
  -- one. The depth was less than 254.
  pub second_unlock-pauses :
      (d e : Device) (token token' : Text) (timestamp timestamp' : ℤ) (now now' : ℕ) (l : Lock)
      (before after : List (ℕ × Inputs))
      → l.guard_depth < 254
      → (handle_unlock lib d token timestamp now l).1 ≡ true
      → let m = tick_all (handle_unlock lib d token timestamp now l).0 before in
        m.solenoid_active ≡ true
        → (handle_unlock lib e token' timestamp' now' m).1 ≡ true
        → l.guard_depth
          < (tick_all (handle_unlock lib e token' timestamp' now' m).0 after).guard_depth
  second_unlock-pauses d e token token' timestamp timestamp' now now' l before after few h busy k =
      let m = tick_all (handle_unlock lib d token timestamp now l).0 before in
      let paused = unlock_pauses d token timestamp now l before h (omega arith) in
      let depth : m.guard_depth ≡ l.guard_depth + 1 = ground arith in
      let later = unlock_pauses e token' timestamp' now' m after k (omega arith) in ground arith

  -- An accepted unlock command is undone by the first tick after it, if that tick still reads door
  -- and latch as closed: the state returns to SECURE. When the door then opens, the tick that accepts
  -- it raises the alarm.
  pub unlock_undone :
      (d : Device) (token : Text) (timestamp : ℤ) (now later third : ℕ) (i j : Inputs) (l : Lock)
      → (handle_unlock lib d token timestamp now l).1 ≡ true
      → is_secure (lock_gpio_read later i l) ≡ true
      → let t = tick later i (handle_unlock lib d token timestamp now l).0 in
        (lock_gpio_read third j t).reed_closed.value ≡ false
        → (t.state ≡ secure) × ((tick third j t).state ≡ alarm)
  unlock_undone d token timestamp now later third i j l h closed ajar =
      let o = open_lock signed_command now l in
      let t = tick later i (handle_unlock lib d token timestamp now l).0 in
      let same : t ≡ tick later i o = ap (tick later i) (accepted-open d token timestamp now l h) in
      let back : t.state ≡ secure =
        ap (λ (x : Lock). x.state) same ∙ tick_closed now later i l signed_command closed in
      (back, tick_ajar third j t back ajar)
