-- ===== src/Main/Dispatch.antt =====
-- `onFirmwareDispatch`: from a message on the firmware topic to the call of `apply`.
use forge_key.Prelude.{
  ℕ, ◌≡◌, Bool, false, not, ◌&&◌, Option, none, some, List, [], ◌∷◌, ◌++◌, ltb, if◌then◌else◌,
  elapsed, Text, codes, text_eq, All, Bool-cases, Option-cases, inl, inr,
}
use forge_key.Json.{Document}
use forge_key.Ota.Spec.{Spec, Platform, parse}
use forge_key.Ota.Policy.{Build, Reason, policy_refusal}
use forge_key.Ota.Signature.{Mbedtls, Anchors}
use forge_key.Ota.Rounds.{Fits}
use forge_key.Ota.Apply.{World, Outcome, refused, restarted, downloading_still, apply}
use forge_key.Ota.Installed.{IsInstalled, apply-IsInstalled}
use forge_key.Main.Support.{RapidCheck, extend_ota_rapid_checking}

-- publishFirmwareStatus, and the marks at the watchdog around `apply`.
pub data Step : Type 0 where
  parse_error : Step
  rejected : Text → Reason → Step
  received deferred : Text → Step
  mark_busy mark_idle : Step

-- The state, the calls, and what `apply` did, if it was called.
pub record Dispatched : Type 0 where
  pub rapid : RapidCheck
  pub rapid_key : Text  -- lastRapidDispatchKey
  pub steps : List Step
  pub applied : Option Outcome

-- The message: its JSON document with the nested policy, `none` where it is no JSON text.
abbrev pub Message : Type 0
Message = Option (Document × Option Document)

abbrev pub read_message : Platform → Message → Option Spec
read_message p none = none
read_message p (some (doc, nested)) = parse p doc nested

-- The uptime where rapid checking is extended, the uptime later, the time of the last upload of
-- a photo, and whether the build counts people.
pub record Moment : Type 0 where
  pub extend_ms : ℕ
  pub now : ℕ
  pub uploaded_ms : ℕ
  pub counts_people : Bool

abbrev pub is_busy : Moment → Spec → Bool
is_busy t spec = t.counts_people && not spec.mandatory && ltb (elapsed t.now t.uploaded_ms) 5000

abbrev after_apply : Outcome → List Step
after_apply o = elim o.end [ refused ↦ mark_idle ∷ [] | restarted ↦ [] | downloading_still ↦ [] ]

module _ (tls : Mbedtls) (anchors : Anchors) (p : Platform) (build : Build) where
  -- An update that is allowed.
  unfoldable pub take_update : World → Bool → Moment → Spec → RapidCheck → Text → Dispatched
  take_update w updating t spec rapid rapid_key =
      let key = spec.version ++ codes ":" ++ spec.sha256 in
      let rapid' =
        if text_eq key rapid_key then rapid else extend_ota_rapid_checking t.extend_ms rapid in
      let o = apply tls anchors p.to_int build w spec updating in
      if is_busy t spec
      then record {
        rapid = rapid';
        rapid_key = key;
        steps = received spec.version ∷ deferred spec.version ∷ [];
        applied = none;
      }
      else record {
        rapid = rapid';
        rapid_key = key;
        steps = received spec.version ∷ mark_busy ∷ after_apply o;
        applied = some o;
      }

  unfoldable pub on_firmware_dispatch :
      World → Bool → Moment → Message → RapidCheck → Text → Dispatched
  unfolding take_update
  on_firmware_dispatch w updating t message rapid rapid_key =
      let quiet : List Step → Dispatched =
        λ steps. record { rapid = rapid; rapid_key = rapid_key; steps = steps; applied = none } in
      elim (read_message p message) [
        | none ↦ quiet (parse_error ∷ [])
        | some spec ↦
            if text_eq spec.version build.firmware_version
            then quiet []
            else elim (policy_refusal p.to_int build spec) [
              | some reason ↦ quiet (rejected spec.version reason ∷ [])
              | none ↦ take_update w updating t spec rapid rapid_key
            ]
      ]

  take_update-applied :
      (w : World) (updating : Bool) (t : Moment) (spec : Spec) (rapid : RapidCheck)
      (rapid_key : Text) (o : Outcome)
      → (take_update w updating t spec rapid rapid_key).applied ≡ some o
      → (is_busy t spec ≡ false) × (apply tls anchors p.to_int build w spec updating ≡ o)
  unfolding take_update
  take_update-applied w updating t spec rapid rapid_key o h = elim (Bool-cases (is_busy t spec)) [
    | inl busy ↦ cc (rw (busy, take_update) at h)
    | inr idle ↦ (idle, cc (rw (idle, take_update) at h))
  ]

  -- A message on the firmware topic restarts the device only with an update that parsed, names
  -- another version than the running one, and passed every check of `apply`, the policy among
  -- them; on a build that counts people, only if it is mandatory or no photo was uploaded in the
  -- five seconds before. No read may yield more bytes than it was asked for.
  pub on_firmware_dispatch-IsInstalled :
      (w : World) (updating : Bool) (t : Moment) (message : Message) (rapid : RapidCheck)
      (rapid_key : Text) (o : Outcome)
      → All Fits w.polls
      → (on_firmware_dispatch w updating t message rapid rapid_key).applied ≡ some o
      → o.end ≡ restarted
      → (spec : Spec) × (read_message p message ≡ some spec)
        × (text_eq spec.version build.firmware_version ≡ false)
        × (is_busy t spec ≡ false)
        × IsInstalled tls anchors p.to_int build w spec
  unfolding on_firmware_dispatch
  on_firmware_dispatch-IsInstalled w updating t message rapid rapid_key o fits h e =
      elim (Option-cases (read_message p message)) [
        | inl bad ↦ cc (rw (bad, on_firmware_dispatch) at h)
        | inr (spec, parsed) ↦ elim (Bool-cases (text_eq spec.version build.firmware_version)) [
          | inl same ↦ cc (rw (parsed, same, on_firmware_dispatch) at h)
          | inr other ↦ elim (Option-cases (policy_refusal p.to_int build spec)) [
            | inr (reason, not_allowed) ↦
                cc (rw (parsed, other, not_allowed, on_firmware_dispatch) at h)
            | inl allowed ↦
                let (idle, applied) =
                  take_update-applied w updating t spec rapid rapid_key o
                    (rw (parsed, other, allowed, on_firmware_dispatch) at h) in
                (
                  spec,
                  parsed,
                  other,
                  idle,
                  apply-IsInstalled tls anchors p.to_int build w spec updating fits (rw applied e),
                )
          ]
        ]
      ]
