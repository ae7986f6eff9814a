-- ===== src/Lock/Moves.antt =====
-- The state machine of the lock as a relation, and what can be reached.
use forge_key.Prelude.{
  ℕ, ◌≡◌, ◌≢◌, refl, true, false, List, [], ◌∷◌, arith, ◌⊎◌, inl, inr, ℤ, Text, Bool-cases,
}
use forge_key.Command.Auth.{Libraries, Device}
use forge_key.Lock.State.{
  State, initializing, secure, unlocked, accessing, alarm, Trigger, signed_command, mortise,
  door_close, alarm_timeout, Lock, initial, begin,
}
use forge_key.Lock.Tick.{Inputs, debounce_pins, step, end_pulse, flash, note_telemetry, tick}
use forge_key.Lock.Unlock.{handle_unlock_command}

-- The moves of a lock whose pins read as in `l`: from a state to another, with the trigger noted.
pub data Move (l : Lock) : State → State → Trigger → Type 0 where
  opened :
      (l.latch_locked.value ≡ false) ⊎ ((l.reed_closed.value ≡ false) × (l.solenoid_pulsing ≡ true))
      → Move l secure unlocked signed_command
  forced :
      l.reed_closed.value ≡ false
      → l.latch_locked.value ≡ true
      → l.solenoid_pulsing ≡ false
      → Move l secure alarm alarm_timeout
  relocked : l.latch_locked.value ≡ true → Move l unlocked secure door_close
  tampered :
      l.latch_locked.value ≡ false → l.mortise_active.value ≡ true → Move l unlocked alarm mortise
  returned :
      l.latch_locked.value ≡ true
      → l.mortise_active.value ≡ false
      → Move l accessing secure door_close
  seized : l.mortise_active.value ≡ true → Move l accessing alarm mortise
  cleared :
      l.latch_locked.value ≡ true
      → l.reed_closed.value ≡ true
      → l.mortise_active.value ≡ false
      → Move l alarm secure door_close

-- The pins and the pulse as a tick's state machine sees them.
abbrev pub read_pins : ℕ → Inputs → Lock → Lock
read_pins = debounce_pins

pub tick-state :
    (now : ℕ) (i : Inputs) (l : Lock)
    → let read = read_pins now i l in
      ((tick now i l).state ≡ (step read.state now read).state)
      × ((tick now i l).last_trigger ≡ (step read.state now read).last_trigger)
unfolding tick debounce_pins end_pulse flash note_telemetry
tick-state now i l = ground arith

-- No move leads away from a state.
abbrev pub IsResting : Lock → State → Type 0
IsResting l s = (t : State) (c : Trigger) → Move l s t c → ⊥

IsResting-initializing : (l : Lock) → IsResting l initializing
IsResting-initializing l t c m = elim m [ ]

IsResting-secure :
    (l : Lock) → l.reed_closed.value ≡ true → l.latch_locked.value ≡ true → IsResting l secure
IsResting-secure l r k t c (opened (inl free)) = cc
IsResting-secure l r k t c (opened (inr (ajar, p))) = cc
IsResting-secure l r k t c (forced ajar b p) = cc

IsResting-unlocked :
    (l : Lock)
    → l.latch_locked.value ≡ false
    → l.mortise_active.value ≡ false
    → IsResting l unlocked
IsResting-unlocked l k m t c (relocked h) = cc
IsResting-unlocked l k m t c (tampered h g) = cc

IsResting-accessing :
    (l : Lock)
    → l.latch_locked.value ≡ false
    → l.mortise_active.value ≡ false
    → IsResting l accessing
IsResting-accessing l k m t c (returned h g) = cc
IsResting-accessing l k m t c (seized h) = cc

IsResting-alarm :
    (l : Lock)
    → (l.mortise_active.value ≡ true)
      ⊎ ((l.latch_locked.value ≡ false) ⊎ (l.reed_closed.value ≡ false))
    → IsResting l alarm
IsResting-alarm l (inl m) t c (cleared k r h) = cc
IsResting-alarm l (inr (inl q)) t c (cleared k r h) = cc
IsResting-alarm l (inr (inr q)) t c (cleared k r h) = cc

-- What a step makes of a lock: it stays if no move is possible, and makes a move otherwise.
abbrev Outcome : Lock → State → Lock → Type 0
Outcome l s t =
    ((t.state ≡ s) × (t.last_trigger ≡ l.last_trigger) × IsResting l s)
    ⊎ Move l s t.state t.last_trigger

step-Move : (s : State) (now : ℕ) (l : Lock) → l.state ≡ s → Outcome l s (step s now l)
unfolding step
step-Move initializing now l e = inl (e, refl, IsResting-initializing l)
step-Move secure now l e = elim (Bool-cases l.latch_locked.value) [
  | inr free ↦ elim (Bool-cases l.reed_closed.value) [
    | inl r ↦ elim (Bool-cases l.solenoid_pulsing) [
      | inl p ↦ simp (r, free, p) (inr (opened (inl free)))
      | inr p ↦ simp (r, free, p) (inr (opened (inl free)))
    ]
    | inr r ↦ elim (Bool-cases l.solenoid_pulsing) [
      | inl p ↦ simp (r, free, p) (inr (opened (inl free)))
      | inr p ↦ simp (r, free, p) (inr (opened (inl free)))
    ]
  ]
  | inl shut ↦ elim (Bool-cases l.reed_closed.value) [
    | inl r ↦ simp (r, shut) (inl (e, refl, IsResting-secure l r shut))
    | inr r ↦ elim (Bool-cases l.solenoid_pulsing) [
      | inl p ↦ simp (r, shut, p) (inr (opened (inr (r, p))))
      | inr p ↦ simp (r, shut, p) (inr (forced r shut p))
    ]
  ]
]
step-Move unlocked now l e = elim (Bool-cases l.latch_locked.value) [
  | inl k ↦ simp k (inr (relocked k))
  | inr k ↦ elim (Bool-cases l.mortise_active.value) [
    | inl m ↦ simp (k, m) (inr (tampered k m))
    | inr m ↦ simp (k, m) (inl (e, refl, IsResting-unlocked l k m))
  ]
]
step-Move accessing now l e = elim (Bool-cases l.mortise_active.value) [
  | inl m ↦ simp m (inr (seized m))
  | inr m ↦ elim (Bool-cases l.latch_locked.value) [
    | inl k ↦ simp (k, m) (inr (returned k m))
    | inr k ↦ simp (k, m) (inl (e, refl, IsResting-accessing l k m))
  ]
]
step-Move alarm now l e = elim (Bool-cases l.mortise_active.value) [
  | inl m ↦ simp m (inl (e, refl, IsResting-alarm l (inl m)))
  | inr m ↦ elim (Bool-cases l.latch_locked.value) [
    | inr k ↦ simp (k, m) (inl (e, refl, IsResting-alarm l (inr (inl k))))
    | inl k ↦ elim (Bool-cases l.reed_closed.value) [
      | inl r ↦ simp (k, m, r) (inr (cleared k r m))
      | inr r ↦ simp (k, m, r) (inl (e, refl, IsResting-alarm l (inr (inr r))))
    ]
  ]
]

-- A tick makes one of the moves, by what the debounced pins and the pulse then read; only where no
-- move is possible it leaves the state and its trigger as they were.
pub tick-Move :
    (now : ℕ) (i : Inputs) (l : Lock)
    → let t = tick now i l in
      ((t.state ≡ l.state)
        × (t.last_trigger ≡ l.last_trigger)
        × IsResting (read_pins now i l) l.state)
      ⊎ Move (read_pins now i l) l.state t.state t.last_trigger
unfolding debounce_pins
tick-Move now i l =
    rw ((tick-state now i l).0, (tick-state now i l).1)
      (step-Move l.state now (read_pins now i l) refl)

-- What the rest of the firmware calls.
pub data Call : Type 0 where
  begins : (mac : Text) → Call
  ticks : (now : ℕ) (i : Inputs) → Call
  unlocks : (d : Device) (token : Text) (timestamp : ℤ) (now later : ℕ) → Call

module _ (lib : Libraries) where
  unfoldable pub call : Lock → Call → Lock
  unfolding begin
  call l (begins mac) = begin mac l
  call l (ticks now i) = tick now i l
  call l (unlocks d token timestamp now later) =
      (handle_unlock_command lib d token timestamp now later l).0

  unfoldable pub calls : Lock → List Call → Lock
  calls l [] = l
  calls l (c ∷ cs) = calls (call l c) cs

-- The solenoid is powered during a pulse only, and no access is under way.
pub record IsValid (l : Lock) : Type 0 where
  pub powered : l.solenoid_on ≡ true → l.solenoid_pulsing ≡ true
  pub no_access : l.state ≢ accessing

pub initial-IsValid : IsValid initial
unfolding initial
initial-IsValid = ground arith

step-IsValid : (s : State) (now : ℕ) (l : Lock) → l.state ≡ s → IsValid l → IsValid (step s now l)
unfolding step
step-IsValid initializing now l e v = v
step-IsValid secure now l e v = ground (arith, v.powered, v.no_access)
step-IsValid unlocked now l e v = ground (arith, v.powered, v.no_access)
step-IsValid accessing now l e v = absurd (v.no_access e)
step-IsValid alarm now l e v = ground (arith, v.powered, v.no_access)

after_step-IsValid :
    (now : ℕ) (l : Lock) → IsValid l → IsValid (note_telemetry now (flash now (end_pulse now l)))
unfolding note_telemetry flash end_pulse
after_step-IsValid now l v = ground (arith, v.powered, v.no_access)

tick-IsValid : (now : ℕ) (i : Inputs) (l : Lock) → IsValid l → IsValid (tick now i l)
unfolding tick debounce_pins
tick-IsValid now i l v =
    let read = debounce_pins now i l in
    after_step-IsValid now (step l.state now read)
      (step-IsValid l.state now read refl (record { powered = v.powered; no_access = v.no_access }))

call-IsValid : (lib : Libraries) (l : Lock) (c : Call) → IsValid l → IsValid (call lib l c)
unfolding call handle_unlock_command
call-IsValid lib l (begins mac) v = record { powered = λ e. cc; no_access = λ e. cc }
call-IsValid lib l (ticks now i) v = tick-IsValid now i l v
call-IsValid lib l (unlocks d token timestamp now later) v = ground (arith, v.powered, v.no_access)

-- In every state that the firmware's calls reach from a valid one, such as the initial one, the
-- solenoid is powered during a pulse only, and the state is never ACCESSING.
pub lock_calls-IsValid :
    (lib : Libraries) (l : Lock) (cs : List Call) → IsValid l → IsValid (calls lib l cs)
unfolding calls
lock_calls-IsValid lib l [] v = v
lock_calls-IsValid lib l (c ∷ cs) v =
    lock_calls-IsValid lib (call lib l c) cs (call-IsValid lib l c v)
