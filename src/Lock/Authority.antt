-- ===== src/Lock/Authority.antt =====
-- Who moves the bolt: the unlock command's authority, and how long the solenoid is powered.
use forge_key.Prelude.{
  ℕ, ◌<◌, ◌≡◌, refl, sym, subst, ◌∙◌, true, false, List, [], ◌∷◌, arith, elapsed, inl, inr, ℤ, Text,
  codes, is_empty, Bool-cases, Option-cases, some, All,
}
use forge_key.Json.{Document}
use forge_key.Command.Auth.{Libraries, Device, split_jwt, decode_base64_url}
use forge_key.Command.Authentic.{IsSigned, verify_sound}
use forge_key.Lock.State.{State, initializing, unlocked, Lock, begin, secure, accessing, alarm}
use forge_key.Lock.Tick.{Inputs, debounce_pins, step, end_pulse, flash, note_telemetry, tick}
use forge_key.Lock.Unlock.{claims_hold, validate_jwt, handle_unlock_command}
use forge_key.Lock.Moves.{Call, begins, ticks, unlocks, call, calls, IsValid, tick-state}

step-solenoid :
    (s : State) (now : ℕ) (l : Lock)
    → ((step s now l).solenoid_on ≡ l.solenoid_on)
      × ((step s now l).solenoid_pulsing ≡ l.solenoid_pulsing)
      × ((step s now l).solenoid_pulse_start ≡ l.solenoid_pulse_start)
unfolding step
step-solenoid initializing now l = (refl, refl, refl)
step-solenoid secure now l = ground arith
step-solenoid unlocked now l = ground arith
step-solenoid accessing now l = ground arith
step-solenoid alarm now l = ground arith

-- No power and no pulse.
pub record IsOff (l : Lock) : Type 0 where
  pub unpowered : l.solenoid_on ≡ false
  pub no_pulse : l.solenoid_pulsing ≡ false

module _ (lib : Libraries) where
  open lib use {deserialize}

  -- A token whose claims hold of the device, the time and the verb, under the trusted key's
  -- signature.
  pub record IsAuthority (d : Device) (token : Text) (timestamp : ℤ) (cmd : Text) : Type 0 where
    pub payload : Text
    pub encoded : Text
    pub input : Text
    pub bytes : Text
    pub claims : Document
    pub splits : split_jwt token ≡ some (payload, encoded, input)
    pub decodes : decode_base64_url lib payload 511 ≡ some bytes
    pub parses : deserialize bytes ≡ some claims
    pub holds : claims_hold d claims timestamp cmd ≡ true
    pub signed : IsSigned lib d input encoded

  validate_jwt-IsAuthority :
      (d : Device) (token : Text) (timestamp : ℤ) (cmd : Text)
      → validate_jwt lib d token timestamp cmd ≡ true
      → IsAuthority d token timestamp cmd
  unfolding validate_jwt
  validate_jwt-IsAuthority d token timestamp cmd h = elim (Option-cases (split_jwt token)) [
    | inl e ↦ cc (rw (e, validate_jwt) at h)
    | inr ((payload, encoded, input), e) ↦ elim (Option-cases (decode_base64_url lib payload 511)) [
      | inl f ↦ cc (rw (e, f, validate_jwt) at h)
      | inr (bytes, f) ↦ elim (Option-cases (deserialize bytes)) [
        | inl g ↦ cc (rw (e, f, g, validate_jwt) at h)
        | inr (claims, g) ↦ elim (Bool-cases (claims_hold d claims timestamp cmd)) [
          | inr k ↦ cc (rw (e, f, g, k, validate_jwt) at h)
          | inl k ↦ elim (Option-cases (decode_base64_url lib encoded 80)) [
            | inl r ↦ cc (rw (e, f, g, k, r, validate_jwt) at h)
            | inr (raw, r) ↦
                let (key, long, parsed, verified) =
                  verify_sound lib d input raw (rw (e, f, g, k, r, validate_jwt) at h) in
                record {
                  payload = payload;
                  encoded = encoded;
                  input = input;
                  bytes = bytes;
                  claims = claims;
                  splits = e;
                  decodes = f;
                  parses = g;
                  holds = k;
                  signed = (raw, key, r, long, parsed, verified);
                }
          ]
        ]
      ]
    ]
  ]

  -- A refused unlock command leaves the lock as it was. An accepted one carried a token with the
  -- authority to unlock this device, and starts the pulse in the state UNLOCKED.
  pub handle_unlock_command_sound :
      (d : Device) (token : Text) (timestamp : ℤ) (now later : ℕ) (l : Lock)
      → let (t, accepted) = handle_unlock_command lib d token timestamp now later l in
        (accepted ≡ false → t ≡ l)
        × (accepted ≡ true
            → IsAuthority (record d { mac = l.mac_address }) token timestamp (codes "unlock")
              × (t.state ≡ unlocked)
              × (t.solenoid_on ≡ true)
              × (t.solenoid_pulse_start ≡ now))
  unfolding handle_unlock_command
  handle_unlock_command_sound d token timestamp now later l = elim (Bool-cases (is_empty token)) [
    | inl e ↦ simp e (λ _. refl, λ q. cc)
    | inr e ↦
        elim (Bool-cases
          (validate_jwt lib (record d { mac = l.mac_address }) token timestamp (codes "unlock"))) [
            | inr v ↦ simp (e, v) (λ _. refl, λ q. cc)
            | inl v ↦
                simp (e, v)
                  (λ q. cc, λ _. (validate_jwt-IsAuthority _ token timestamp _ v, refl, refl, refl))
          ]
  ]

  -- An unlock command whose token no device address makes valid; begins and ticks count too.
  abbrev pub IsRefused : Call → Type 0
  IsRefused (begins mac) = Unit
  IsRefused (ticks now i) = Unit
  IsRefused (unlocks d token timestamp now later) =
      (mac : Text)
      → validate_jwt lib (record d { mac = mac }) token timestamp (codes "unlock") ≡ false

  tick-IsOff :
      (now : ℕ) (i : Inputs) (l : Lock)
      → IsOff l
      → IsOff (tick now i l) × (l.state ≡ initializing → (tick now i l).state ≡ initializing)
  unfolding tick debounce_pins end_pulse flash note_telemetry
  tick-IsOff now i l h =
      let read = debounce_pins now i l in
      (
        ground (arith, step-solenoid l.state now read, h.unpowered, h.no_pulse),
        λ e. (tick-state now i l).0 ∙ rw (e, step) refl,
      )

  call-IsOff :
      (l : Lock) (c : Call)
      → IsRefused c
      → IsOff l
      → IsOff (call lib l c) × (l.state ≡ initializing → (call lib l c).state ≡ initializing)
  unfolding call handle_unlock_command begin
  call-IsOff l (begins mac) r h = (record { unpowered = refl; no_pulse = h.no_pulse }, λ _. refl)
  call-IsOff l (ticks now i) r h = tick-IsOff now i l h
  call-IsOff l (unlocks d token timestamp now later) r h =
      ground (arith, r l.mac_address, h.unpowered, h.no_pulse)

  -- A lock whose solenoid is off, and that gets no unlock command with a valid token, never powers
  -- it, whatever its pins do and however often it begins and ticks; and if it is initializing it
  -- stays so.
  pub refused_calls :
      (l : Lock) (cs : List Call)
      → All IsRefused cs
      → IsOff l
      → IsOff (calls lib l cs) × (l.state ≡ initializing → (calls lib l cs).state ≡ initializing)
  unfolding calls
  refused_calls l [] r h = (h, λ e. e)
  refused_calls l (c ∷ cs) r h =
      let (off, stays) = call-IsOff l c r.0 h in
      let (off', stays') = refused_calls (call lib l c) cs r.1 off in (off', λ e. stays' (stays e))

after_step-pulse :
    (now : ℕ) (l : Lock)
    → (l.solenoid_on ≡ true → l.solenoid_pulsing ≡ true)
    → (note_telemetry now (flash now (end_pulse now l))).solenoid_on ≡ true
    → (elapsed now l.solenoid_pulse_start < 1500)
      × ((note_telemetry now (flash now (end_pulse now l))).solenoid_pulse_start
          ≡ l.solenoid_pulse_start)
unfolding end_pulse flash note_telemetry
after_step-pulse now l v powered = ground arith

-- After a tick of a valid lock the solenoid is powered only if its pulse, which the tick has not
-- begun, began less than a second and a half ago.
pub tick-pulse_bound :
    (now : ℕ) (i : Inputs) (l : Lock)
    → IsValid l
    → (tick now i l).solenoid_on ≡ true
    → (elapsed now (tick now i l).solenoid_pulse_start < 1500)
      × ((tick now i l).solenoid_pulse_start ≡ l.solenoid_pulse_start)
unfolding tick debounce_pins
tick-pulse_bound now i l v powered =
    let read = debounce_pins now i l in
    let (on, pulsing, since) = step-solenoid l.state now read in
    let (recent, kept) =
      after_step-pulse now (step l.state now read) (λ e. pulsing ∙ v.powered (sym on ∙ e))
        powered in
    (subst (λ n. elapsed now n < 1500) (sym kept) recent, kept ∙ since)
