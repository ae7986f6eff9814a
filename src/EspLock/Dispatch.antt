-- ===== src/EspLock/Dispatch.antt =====
-- `on_command_message` of main.c: from a message to the lock's operations.
use forge_key.Prelude.{
  ℕ, take, Bool, true, false, not, ◌&&◌, ◌||◌, Option, none, some, if◌then◌else◌, pos, Text, codes,
  is_empty, text_eq,
}
use forge_key.Json.{Value, Document, text_or_empty}
use forge_key.Command.Replay.{Cache}
use forge_key.Command.Auth.{Libraries, Device, field}
use forge_key.EspLock.State.{Lock}
use forge_key.EspLock.Orders.{
  handle_unlock, set_lockout, start_commissioning, ack_initialization, handle_emergency_unlock,
}
use forge_key.EspLock.Validation.{Rejection, command_error, remember_accepted}

-- A parsed message, by its two accessors: `exact` is cJSON_GetObjectItemCaseSensitive, and
-- `any_case` is cJSON_GetObjectItem, which takes the first name that differs at most in case.
-- `operator_id` is the member "id" of the member "operator", if there is one.
pub record Message : Type 0 where
  pub exact : Document
  pub any_case : Document
  pub operator_id : Value

-- What the device answers or does, the lock aside.
pub data Reply : Type 0 where
  rejected : Rejection → Reply
  missing_operator_identity status_snapshot restarts unsupported unknown : Reply
  lifecycle : Text → Reply
  acknowledged : Text → Reply
  refused : Text → Text → Reply

-- `noted_id` is what s_last_command_id is set to, if it is.
pub record Result : Type 0 where
  pub lock : Lock
  pub cache : Cache
  pub reply : Reply
  pub noted_id : Option Text

abbrev is_cmd : Text → Text → Bool
is_cmd cmd name = text_eq cmd name

unfoldable pub safety_sensitive : Text → Bool
safety_sensitive cmd =
    is_cmd cmd (codes "unlock")
    || is_cmd cmd (codes "lockout")
    || is_cmd cmd (codes "clear_lockout")
    || is_cmd cmd (codes "init_ack")
    || is_cmd cmd (codes "emergency_unlock")
    || is_cmd cmd (codes "commission")
    || is_cmd cmd (codes "restart")
    || is_cmd cmd (codes "retire")
    || is_cmd cmd (codes "factory_reset")
    || is_cmd cmd (codes "reprovision")

unfoldable pub has_operator_identity : Message → Bool
has_operator_identity m =
    if not (is_empty (field (codes "actor") m.exact))
    then true
    else if not (is_empty (field (codes "operator_id") m.exact))
    then true
    else not (is_empty (text_or_empty m.operator_id))

abbrev answer : Lock × Bool → Reply → Reply → Lock × Reply
answer (l, done) yes' no' = (l, if done then yes' else no')

-- The branch of an accepted command, by its verb.
unfoldable pub perform : Libraries → Device → Message → Text → ℕ → Lock → Lock × Reply
perform lib d m cmd now l =
    let jwt = field (codes "jwt") m.any_case in
    if is_cmd cmd (codes "status") || is_cmd cmd (codes "ping")
    then (l, status_snapshot)
    else if is_cmd cmd (codes "retire")
        || is_cmd cmd (codes "factory_reset")
        || is_cmd cmd (codes "reprovision")
    then (l, lifecycle cmd)
    else if is_cmd cmd (codes "restart")
    then (l, restarts)
    else if is_cmd cmd (codes "unlock")
    then (if is_empty jwt
        then (l, refused cmd (codes "missing_jwt"))
        else answer (handle_unlock lib d jwt (pos 0) now l) (acknowledged cmd)
            (refused cmd (codes "invalid_token")))
    else if is_cmd cmd (codes "lockout")
    then (set_lockout true now l, acknowledged cmd)
    else if is_cmd cmd (codes "clear_lockout")
    then (set_lockout false now l, acknowledged cmd)
    else if is_cmd cmd (codes "init_ack")
    then answer (ack_initialization now l) (acknowledged cmd) (refused cmd (codes "lockout_active"))
    else if is_cmd cmd (codes "emergency_unlock")
    then (handle_emergency_unlock now l, acknowledged cmd)
    else if is_cmd cmd (codes "commission")
    then answer (start_commissioning now l) (acknowledged cmd)
        (refused cmd (codes "lockout_active"))
    else if is_cmd cmd (codes "blink") || is_cmd cmd (codes "identify")
    then (l, unsupported)
    else (l, unknown)

-- The device's address is the lock's.
abbrev pub of_lock : Device → Lock → Device
of_lock d l = record d { mac = l.mac_address }

unfoldable pub on_command : Libraries → Device → Message → ℕ → Cache → Lock → Result
on_command lib d m now cache l =
    let cmd = field (codes "cmd") m.any_case in
    elim (command_error lib (of_lock d l) cache m.exact) [
      | some e ↦ record { lock = l; cache = cache; reply = rejected e; noted_id = none }
      | none ↦
          let cache' =
            remember_accepted (field (codes "command_id") m.exact) (field (codes "nonce") m.exact)
              cache in
          let id = field (codes "command_id") m.any_case in
          let noted : Option Text = if is_empty id then none else some (take 71 id) in
          let (l', r) = perform lib d m cmd now l in
          if safety_sensitive cmd && not (has_operator_identity m)
          then record {
            lock = l;
            cache = cache;
            reply = missing_operator_identity;
            noted_id = none;
          }
          else record { lock = l'; cache = cache'; reply = r; noted_id = noted }
    ]
