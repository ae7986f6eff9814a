-- ===== src/Ota/Download.antt =====
-- The download loop of `apply`, one round at a time.
use forge_key.Prelude.{
  ℕ, ◌+◌, ◌-◌, ◌*◌, ◌/◌, Bool, true, false, not, ◌&&◌, List, [], ◌∷◌, ◌++◌, ltb, leb, ◌==◌,
  if◌then◌else◌, length, Text, is_empty, elapsed, ℤ,
}
use forge_key.Ota.Policy.{Reason}

-- What `notify` reports. `http_status` is "http_" and the code; `stage` stands for the other texts.
pub data Stage : Type 0 where
  malformed_url connect_failed no_content_length update_begin_failed : Stage
  connection_closed read_timeout flash_write_failed : Stage
  sha256_mismatch bad_base64_signature signature_invalid update_end_failed : Stage

pub data Notice : Type 0 where
  downloading : ℕ → Notice
  verifying rebooting : Notice
  http_status : ℤ → Notice
  failed : Stage → Notice
  rejected : Reason → Notice

-- The calls that leave the updater, in order.
pub data Effect : Type 0 where
  notify : Notice → Effect
  connect : Text → ℕ → Effect
  request : Text → Text → Effect
  stop : Effect
  update_begin : ℕ → Effect
  update_abort update_end : Effect
  watchdog_suspend watchdog_resume mark_healthy : Effect
  store_versions : Text → Text → Effect
  restart : Effect

-- What a round meets: the client's answers, `millis()`, and whether the flash takes the bytes.
-- `read want` are the bytes that client->read(buf, want) delivers, none where it fails.
pub record Poll : Type 0 where
  pub available : ℕ
  pub connected : Bool
  pub now : ℕ
  pub read : ℕ → Text
  pub write_ok : Bool

-- The loop's variables; `written` is what Update.write was given, `hashed` what the hash was.
pub record Download : Type 0 where
  pub received : ℕ
  pub last_progress_pct : ℕ
  pub last_data_ms : ℕ
  pub written : Text
  pub hashed : Text
  pub log : List Effect

abbrev pub started : ℕ → Download
started now = record {
  received = 0;
  last_progress_pct = 0;
  last_data_ms = now;
  written = [];
  hashed = [];
  log = [];
}

-- How many bytes a round asks for.
unfoldable pub want : ℕ → ℕ → ℕ → ℕ
want total available received =
    let room : ℕ = if ltb available 1024 then available else 1024 in
    if ltb total (received + room) then total - received else room

-- The percentage, and its notice every ten points.
unfoldable pub report : ℕ → Download → Download
report total d =
    let pct = d.received * 100 / total in
    if leb (d.last_progress_pct + 10) pct && ltb pct 100
    then record d { last_progress_pct = pct; log = d.log ++ notify (downloading pct) ∷ [] }
    else d

unfoldable pub take_in : ℕ → ℕ → Text → Download → Download
unfolding report
take_in total now bytes d = report total (record d {
  received = d.received + length bytes;
  last_data_ms = now;
  written = d.written ++ bytes;
  hashed = d.hashed ++ bytes;
  log = d.log ++ mark_healthy ∷ [];
})

pub data Round : Type 0 where
  go_on : Download → Round
  give_up : Stage → Round

unfoldable pub download_round : ℕ → Poll → Download → Round
download_round total p d =
    if p.available == 0
    then (if not p.connected
        then give_up connection_closed
        else if ltb 20000 (elapsed p.now d.last_data_ms)
        then give_up read_timeout
        else go_on (record d { log = d.log ++ mark_healthy ∷ [] }))
    else (let bytes = p.read (want total p.available d.received) in
        if is_empty bytes
        then go_on d
        else if not p.write_ok
        then give_up flash_write_failed
        else go_on (take_in total p.now bytes d))

-- How far the loop comes with so many rounds.
pub data Progress : Type 0 where
  running : Download → Progress
  broken : Stage → Download → Progress
  complete : Download → Progress

unfoldable pub download : ℕ → List Poll → Download → Progress
download total [] d = if ltb d.received total then running d else complete d
download total (p ∷ ps) d = elim (ltb d.received total) [
  | false ↦ complete d
  | true ↦ elim (download_round total p d) [
    | give_up s ↦ broken s d
    | go_on d' ↦ download total ps d'
  ]
]
