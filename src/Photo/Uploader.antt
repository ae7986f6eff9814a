-- ===== src/Photo/Uploader.antt =====
-- The members of `PhotoUploader`. The network is an argument: what the lookups of the host, the
-- connection, the writes and the server answer.
use forge_key.Prelude.{
  ℕ, zero, suc, ◌+◌, ◌*◌, ◌/◌, Bool, true, false, not, ◌&&◌, ◌||◌, List, [], ◌∷◌, ltb, leb, ◌==◌,
  if◌then◌else◌, take, Text, is_empty, u32, elapsed, ℤ, pos, ltb_ℤ,
}
use forge_key.Ota.Apply.{status_code}

pub record PhotoUploader : Type 0 where
  pub host : Text
  pub port : ℕ
  pub mac : Text
  pub host_ip_resolved : Bool
  pub client_certificate_pem : Text
  pub client_private_key_pem : Text
  pub last_upload : ℕ
  pub last_motion_ms : ℕ
  pub next_upload_allowed_ms : ℕ
  pub upload_backoff_ms : ℕ

unfoldable pub initial : PhotoUploader
initial = record {
  host = [];
  port = 443;
  mac = [];
  host_ip_resolved = false;
  client_certificate_pem = [];
  client_private_key_pem = [];
  last_upload = 0;
  last_motion_ms = 0;
  next_upload_allowed_ms = 0;
  upload_backoff_ms = 15000;
}

pub data Result : Type 0 where
  ok skipped transport_error auth_expired server_error bad_response : Result

-- `resolves` and `writes` are the answers of the calls in order, a write as whether it took the chunk.
pub record Network : Type 0 where
  pub resolves : List Bool
  pub connects : Bool
  pub writes : List Bool
  pub status_line : Text

-- `resolved` is what hostByName returns.
unfoldable pub begin : Text → ℕ → Text → Bool → PhotoUploader → PhotoUploader
begin host port mac resolved s = record s {
  host = host;
  port = port;
  mac = mac;
  host_ip_resolved = resolved;
  next_upload_allowed_ms = 0;
  upload_backoff_ms = 15000;
}

unfoldable pub set_client_identity : Text → Text → PhotoUploader → PhotoUploader
set_client_identity cert_pem key_pem s = record s {
  client_certificate_pem = cert_pem;
  client_private_key_pem = key_pem;
}

unfoldable pub mark_motion : ℕ → PhotoUploader → PhotoUploader
mark_motion now_ms s = record s { last_motion_ms = now_ms }

unfoldable pub should_upload : ℕ → ℕ → ℕ → Bool → PhotoUploader → Bool
should_upload now_ms interval_ms motion_window_ms mqtt_connected s =
    if not mqtt_connected
    then false
    else if ltb now_ms s.next_upload_allowed_ms
    then false
    else if not (s.last_upload == 0) && ltb (elapsed now_ms s.last_upload) interval_ms
    then false
    else if s.last_upload == 0
    then true
    else if s.last_motion_ms == 0
    then false
    else leb (elapsed now_ms s.last_motion_ms) motion_window_ms

unfoldable pub back_off : ℕ → PhotoUploader → PhotoUploader
back_off now_ms s =
    let backoff = if ltb s.upload_backoff_ms 120000 then s.upload_backoff_ms * 2 else 120000 in
    record s { upload_backoff_ms = backoff; next_upload_allowed_ms = u32 (now_ms + backoff) }

abbrev any_true : List Bool → Bool
any_true [] = false
any_true (b ∷ bs) = b || any_true bs

-- Up to three lookups of a host that is not resolved yet.
abbrev pub look_up : Network → PhotoUploader → PhotoUploader
look_up net s = record s { host_ip_resolved = s.host_ip_resolved || any_true (take 3 net.resolves) }

-- Whether each of some chunks is taken.
unfoldable pub all_written : ℕ → List Bool → Bool
all_written zero answers = true
all_written (suc n) [] = false
all_written (suc n) (answer ∷ answers) = answer && all_written n answers

abbrev is_between : ℕ → ℕ → ℤ → Bool
is_between low high code = not (ltb_ℤ code (pos low)) && ltb_ℤ code (pos high)

-- What the status of the server makes of the upload.
unfoldable pub take_status : ℕ → ℤ → PhotoUploader → PhotoUploader × Result
unfolding back_off
take_status now_ms code s =
    if is_between 200 300 code
    then (
      record s { last_upload = now_ms; upload_backoff_ms = 15000; next_upload_allowed_ms = 0 },
      ok,
    )
    else if is_between 401 402 code
    then (s, auth_expired)
    else if is_between 403 404 code
    then (s, auth_expired)
    else if not (ltb_ℤ code (pos 500))
    then (back_off now_ms s, server_error)
    else (back_off now_ms s, bad_response)

-- The number of chunks of 1024 bytes.
abbrev pub chunks : ℕ → ℕ
chunks jpeg_len = (jpeg_len + 1023) / 1024

-- `to_int` is String::toInt; a buffer that is missing has the length 0.
unfoldable pub upload_photo : (Text → ℤ) → ℕ → ℕ → Network → PhotoUploader → PhotoUploader × Result
unfolding take_status
upload_photo to_int jpeg_len now_ms net s =
    if jpeg_len == 0
    then (s, transport_error)
    else if is_empty s.client_certificate_pem || is_empty s.client_private_key_pem
    then (s, auth_expired)
    else if not net.connects
    then (back_off now_ms (look_up net s), transport_error)
    else if not (all_written (chunks jpeg_len) net.writes)
    then (look_up net s, transport_error)
    else take_status now_ms (status_code to_int net.status_line) (look_up net s)
