-- ===== src/Main/Commands.antt =====
-- `onCommandMessage`: from a message on the command topic to what the firmware does. The flags of
-- the build are a record, the calls of other parts are values, and the JSON texts of the
-- acknowledgements are left out but for their errors.
use forge_key.Prelude.{
  ℕ, ◌*◌, Bool, true, false, not, ◌&&◌, ◌||◌, Option, none, some, List, [], ◌∷◌, if◌then◌else◌,
  Text, codes, text_eq, u32, pos, is_empty,
}
use forge_key.Json.{Value, str, Document, is_null, text_or_empty, Conversions}
use forge_key.Command.Replay.{Cache}
use forge_key.Command.Auth.{Libraries, Device, Error, field}
use forge_key.Command.Validate.{Result, validate, remember_accepted, canonical_error}
use forge_key.Lock.State.{Lock}
use forge_key.Lock.Unlock.{handle_unlock_command}
use forge_key.Matrix.Spec.{IndicatorSpec}
use forge_key.Main.Support.{Support, set_support_mode_duration, stop_support_mode}
use forge_key.Main.Indicator.{Message, Numbers, resolve, shown_ms}

-- The flags of the build. A lock is no people counter, and has no BLE.
pub record Flags : Type 0 where
  pub is_lock : Bool
  pub counts_people : Bool
  pub has_matrix : Bool
  pub has_relay : Bool
  pub has_scanner : Bool
  pub has_beacon : Bool
  pub has_equipment : Bool

-- device_lifecycle::Action
pub data Lifecycle : Type 0 where
  retire factory_reset reprovision : Lifecycle

-- What the handler calls and publishes, in order.
pub data Action : Type 0 where
  rejected : Error → Action
  refused : Text → Action
  acknowledged : Action
  set_blink : Bool → Action
  identify : ℕ → Action
  show_indicator : IndicatorSpec → ℕ → Action
  clear_indicator : Action
  snapshot : Action
  end_life : Lifecycle → Text → Action
  request_capture : Action
  set_power : Action
  restart : Action
  set_beacon : Bool → Action
  list_equipment : Action
  forget_ble : Action
  unknown_command parse_failed : Action

-- The state that the handler changes itself: the replay cache with its copy in flash, support mode,
-- and the lock.
pub record Machine : Type 0 where
  pub cache : Cache
  pub stored : Option Text
  pub support : Support
  pub lock : Lock

-- What the handler finds: StatusLed::blinkOverrideActive(), whether the camera takes a one-shot
-- capture, and the readings of the clock for support mode and for the lock.
pub record Moment : Type 0 where
  pub blinking : Bool
  pub camera_ready : Bool
  pub now : ℕ
  pub unlock_now : ℕ
  pub unlock_later : ℕ

abbrev pub text_of : Document → Text → Text
text_of doc name = text_or_empty (doc name)

-- doc["action"] | fallback
abbrev action_or : Value → Text → Text
action_or (str t) fallback = t
action_or _ fallback = fallback

unfoldable pub perform_blink : Conversions → Moment → Document → List Action
perform_blink json t doc =
    let action = text_of doc (codes "action") in
    if not (is_null (doc (codes "on")))
    then set_blink (json.as_bool (doc (codes "on"))) ∷ acknowledged ∷ []
    else if is_null (doc (codes "action"))
    then set_blink (not t.blinking) ∷ acknowledged ∷ []
    else if text_eq action (codes "start")
    then set_blink true ∷ acknowledged ∷ []
    else if text_eq action (codes "stop")
    then set_blink false ∷ acknowledged ∷ []
    else if text_eq action (codes "toggle")
    then set_blink (not t.blinking) ∷ acknowledged ∷ []
    else acknowledged ∷ []

-- IDENTIFY_DEFAULT_DURATION_S is 30.
unfoldable pub perform_identify : Numbers → Document → List Action
perform_identify nums doc =
    identify (u32 (nums.ulong_or (doc (codes "duration_s")) 30 * 1000)) ∷ acknowledged ∷ []

unfoldable pub perform_indicator : Flags → Numbers → Message → List Action
perform_indicator flags nums m = elim (resolve nums m) [
  | none ↦ refused (codes "unsupported_indicator") ∷ []
  | some l ↦
      if l.resets
      then clear_indicator ∷ acknowledged ∷ []
      else if flags.has_matrix
      then show_indicator l.spec (shown_ms nums m) ∷ acknowledged ∷ []
      else refused (codes "unsupported_indicator") ∷ []
]

unfoldable pub perform_support : Numbers → Moment → Text → Document → Support → Support
perform_support nums t cmd doc s =
    let fallback =
      if text_eq cmd (codes "run_diagnostics") then codes "start" else codes "status" in
    let action = action_or (doc (codes "action")) fallback in
    if text_eq action (codes "start") || text_eq action (codes "on")
    then set_support_mode_duration (nums.ulong_or (doc (codes "duration_s")) 900) t.now s
    else if text_eq action (codes "stop") || text_eq action (codes "off")
    then stop_support_mode s
    else s

abbrev lifecycle_of : Text → Lifecycle
lifecycle_of cmd =
    if text_eq cmd (codes "factory_reset")
    then factory_reset
    else if text_eq cmd (codes "reprovision")
    then reprovision
    else retire

unfoldable pub perform_capture : Flags → Moment → List Action
perform_capture flags t =
    if flags.is_lock || not flags.counts_people
    then refused (codes "capability_unsupported") ∷ []
    else if t.camera_ready
    then request_capture ∷ acknowledged ∷ []
    else refused (codes "camera_unavailable") ∷ []

unfoldable pub perform_beacon : Document → List Action
perform_beacon doc =
    if text_eq (text_of doc (codes "action")) (codes "start")
    then set_beacon true ∷ acknowledged ∷ []
    else if text_eq (text_of doc (codes "action")) (codes "stop")
    then set_beacon false ∷ acknowledged ∷ []
    else refused (codes "missing_action") ∷ []

abbrev pub is_any : Text → List Text → Bool
is_any cmd [] = false
is_any cmd (w ∷ ws) = text_eq cmd w || is_any cmd ws

-- The commands of the builds without a lock.
unfoldable pub perform_ble : Flags → Text → Document → List Action
unfolding perform_beacon
perform_ble flags cmd doc =
    if flags.has_scanner && is_any cmd (codes "ble_scan" ∷ codes "ble_scan_stop" ∷ [])
    then acknowledged ∷ []
    else if flags.has_beacon && text_eq cmd (codes "beacon")
    then perform_beacon doc
    else if flags.has_equipment && text_eq cmd (codes "equipment_list")
    then list_equipment ∷ []
    else if flags.has_equipment && text_eq cmd (codes "equipment_set")
    then acknowledged ∷ []
    else if text_eq cmd (codes "forget_ble")
    then forget_ble ∷ acknowledged ∷ []
    else unknown_command ∷ []

abbrev pub is_support : Text → Bool
is_support cmd = is_any cmd (codes "support_mode" ∷ codes "support" ∷ codes "run_diagnostics" ∷ [])

-- The cache after a command was accepted, with what is written to flash.
unfoldable pub remembered : Result → Machine → Machine
remembered r s =
    let (cache, text) = remember_accepted r s.cache in
    record s { cache = cache; stored = elim text [ none ↦ s.stored | some t ↦ some t ] }

module _ (lib : Libraries) (flags : Flags) (nums : Numbers) (json : Conversions) where
  -- The commands of the builds with a lock: only an unlock changes it.
  unfoldable pub perform_lock : Device → Moment → Text → Document → Lock → Lock × List Action
  perform_lock d t cmd doc l =
      let token = text_of doc (codes "jwt") in
      let (after, accepted) =
        handle_unlock_command lib d token (pos 0) t.unlock_now t.unlock_later l in
      if text_eq cmd (codes "unlock")
      then (if is_empty token
          then (l, refused (codes "missing_jwt") ∷ [])
          else (after, (if accepted then acknowledged else refused (codes "invalid_token")) ∷ []))
      else if is_any cmd (codes "lockout" ∷ codes "clear_lockout" ∷ codes "init_ack" ∷ [])
      then (l, refused (codes "not_implemented") ∷ [])
      else (l, unknown_command ∷ [])

  -- The commands that leave the lock and support mode alone, in the order of their tests; `none`
  -- for another command.
  unfoldable pub perform_common : Moment → Text → Message → Text → Option (List Action)
  unfolding perform_blink perform_identify perform_indicator perform_capture
  perform_common t cmd m actor =
      if text_eq cmd (codes "blink")
      then some (perform_blink json t m.fields)
      else if text_eq cmd (codes "identify")
      then some (perform_identify nums m.fields)
      else if is_any cmd (codes "set_indicator" ∷ codes "set_pattern" ∷ [])
      then some (perform_indicator flags nums m)
      else if is_any cmd (codes "status" ∷ codes "ping" ∷ [])
      then some (snapshot ∷ [])
      else if is_any cmd (codes "retire" ∷ codes "factory_reset" ∷ codes "reprovision" ∷ [])
      then some (end_life (lifecycle_of cmd) actor ∷ [])
      else if is_any cmd (codes "capture" ∷ codes "capture_photo" ∷ [])
      then some (perform_capture flags t)
      else if flags.has_relay && is_any cmd (codes "power_set" ∷ codes "relay_set" ∷ [])
      then some (set_power ∷ acknowledged ∷ [])
      else if text_eq cmd (codes "restart")
      then some (acknowledged ∷ restart ∷ [])
      else none

  -- What an accepted command does; `Once.take_post` adds the reboot after `restart` and `end_life`.
  -- The tests of the source compare with distinct words, so that
  -- their order plays no part.
  unfoldable pub perform : Device → Moment → Text → Message → Text → Machine → Machine × List Action
  unfolding perform_support perform_ble perform_common
  perform d t cmd m actor s =
      let (lock, locked) = perform_lock d t cmd m.fields s.lock in
      if is_support cmd
      then (record s { support = perform_support nums t cmd m.fields s.support }, acknowledged ∷ [])
      else elim (perform_common t cmd m actor) [
        | some actions ↦ (s, actions)
        | none ↦
            if flags.is_lock
            then (record s { lock = lock }, locked)
            else (s, perform_ble flags cmd m.fields)
      ]

  -- What follows the validation, by its error.
  unfoldable pub answer :
      Device → Moment → Message → Result → Machine → Option Error → Machine × List Action
  answer d t m r s (some e) = (s, rejected (canonical_error r) ∷ [])
  answer d t m r s none = perform d t (field (codes "cmd") m.fields) m r.actor (remembered r s)

  -- A message is `none` where it is no JSON text.
  unfoldable pub on_command_message :
      Device → Moment → Option Message → Machine → Machine × List Action
  unfolding answer
  on_command_message d t none s = (s, parse_failed ∷ [])
  on_command_message d t (some m) s =
      let (cache, r) = validate lib d s.stored s.cache m.fields in
      answer d t m r (record s { cache = cache }) r.error
