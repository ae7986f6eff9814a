-- ===== src/Photo/Backoff.antt =====
-- The pause after an upload that failed.
use forge_key.Prelude.{
  ℕ, ◌+◌, ◌≡◌, ◌≢◌, ◌≤◌, ◌<◌, ◌⊎◌, inl, inr, refl, Bool, true, not, ◌&&◌, ◌||◌, List, [], ◌∷◌,
  arith, ltb, leb, ◌==◌, if◌then◌else◌, if_both, if_cases, Text, is_empty, ℤ, pos, ltb_ℤ, ◌*◌,
}
use forge_key.Ota.Apply.{status_code}
use forge_key.Photo.Uploader.{
  PhotoUploader, Network, Result, ok, auth_expired, server_error, bad_response, initial, begin,
  set_client_identity, mark_motion, should_upload, back_off, take_status, all_written, chunks,
  look_up, upload_photo,
}

-- The calls of the uploader that change it.
pub data Call : Type 0 where
  start : Text → ℕ → Text → Bool → Call
  identity : Text → Text → Call
  motion : ℕ → Call
  upload : ℕ → ℕ → Network → Call

unfoldable pub step : (Text → ℤ) → Call → PhotoUploader → PhotoUploader
step to_int (start host port mac resolved) s = begin host port mac resolved s
step to_int (identity cert_pem key_pem) s = set_client_identity cert_pem key_pem s
step to_int (motion now_ms) s = mark_motion now_ms s
step to_int (upload jpeg_len now_ms net) s = (upload_photo to_int jpeg_len now_ms net s).0

unfoldable pub run : (Text → ℤ) → List Call → PhotoUploader → PhotoUploader
run to_int [] s = s
run to_int (call ∷ calls) s = run to_int calls (step to_int call s)

-- The pauses that there are.
abbrev IsPause : ℕ → Type 0
IsPause b = (b ≡ 15000) ⊎ (b ≡ 30000) ⊎ (b ≡ 60000) ⊎ (b ≡ 120000)

abbrev IsPaused : PhotoUploader → Type 0
IsPaused s = IsPause s.upload_backoff_ms

abbrev next_pause : ℕ → ℕ
next_pause b = if ltb b 120000 then b * 2 else 120000

abbrev IsLong : ℕ → Type 0
IsLong n = IsPause n × (30000 ≤ n) × (n ≤ 120000)

next_pause-IsLong : (b : ℕ) → IsPause b → IsLong (next_pause b)
next_pause-IsLong b (inl e) = rw e (inr (inl refl), omega arith, omega arith)
next_pause-IsLong b (inr (inl e)) = rw e (inr (inr (inl refl)), omega arith, omega arith)
next_pause-IsLong b (inr (inr (inl e))) = rw e (inr (inr (inr refl)), omega arith, omega arith)
next_pause-IsLong b (inr (inr (inr e))) = rw e (inr (inr (inr refl)), omega arith, omega arith)

-- What an upload leaves of the pause.
module _ (P : PhotoUploader × Result → Type 0) (now_ms : ℕ) where
  take_status-both :
      (code : ℤ) (s : PhotoUploader)
      → P (
        record s { last_upload = now_ms; upload_backoff_ms = 15000; next_upload_allowed_ms = 0 },
        ok,
      )
      → P (s, auth_expired)
      → P (back_off now_ms s, server_error)
      → P (back_off now_ms s, bad_response)
      → P (take_status now_ms code s)
  unfolding take_status
  take_status-both code s done refused failed bad =
      if_both P (not (ltb_ℤ code (pos 200)) && ltb_ℤ code (pos 300)) done (
        if_both P (not (ltb_ℤ code (pos 401)) && ltb_ℤ code (pos 402)) refused (
          if_both P (not (ltb_ℤ code (pos 403)) && ltb_ℤ code (pos 404)) refused
            (if_both P (not (ltb_ℤ code (pos 500))) failed bad)))

module _ (to_int : Text → ℤ) where
  back_off-IsPaused : (now_ms : ℕ) (s : PhotoUploader) → IsPaused s → IsPaused (back_off now_ms s)
  unfolding back_off
  back_off-IsPaused now_ms s paused = (next_pause-IsLong s.upload_backoff_ms paused).0

  upload_photo-IsPaused :
      (jpeg_len now_ms : ℕ) (net : Network) (s : PhotoUploader)
      → IsPaused s
      → IsPaused (upload_photo to_int jpeg_len now_ms net s).0
  unfolding upload_photo
  upload_photo-IsPaused jpeg_len now_ms net s paused =
      let P : PhotoUploader × Result → Type 0 = λ r. IsPaused r.0 in
      if_both P (jpeg_len == 0) paused (
        if_both P (is_empty s.client_certificate_pem || is_empty s.client_private_key_pem) paused (
          if_both P (not net.connects) (back_off-IsPaused now_ms (look_up net s) paused) (
            if_both P (not (all_written (chunks jpeg_len) net.writes)) paused (
              take_status-both P now_ms (status_code to_int net.status_line) (look_up net s)
                (inl refl) paused (back_off-IsPaused now_ms (look_up net s) paused)
                (back_off-IsPaused now_ms (look_up net s) paused)))))

  run-IsPaused :
      (calls : List Call) (s : PhotoUploader) → IsPaused s → IsPaused (run to_int calls s)
  unfolding run step begin set_client_identity mark_motion
  run-IsPaused [] s paused = paused
  run-IsPaused (start host port mac resolved ∷ calls) s paused =
      run-IsPaused calls (begin host port mac resolved s) (inl refl)
  run-IsPaused (identity cert_pem key_pem ∷ calls) s paused =
      run-IsPaused calls (set_client_identity cert_pem key_pem s) paused
  run-IsPaused (motion now_ms ∷ calls) s paused = run-IsPaused calls (mark_motion now_ms s) paused
  run-IsPaused (upload jpeg_len now_ms net ∷ calls) s paused =
      run-IsPaused calls (upload_photo to_int jpeg_len now_ms net s).0
        (upload_photo-IsPaused jpeg_len now_ms net s paused)

  -- Whether uploads pause until a time that is `wait` after `now_ms`.
  abbrev Waits : ℕ → ℕ → PhotoUploader → Type 0
  Waits now_ms wait s =
      (s.next_upload_allowed_ms ≡ now_ms + wait) × (30000 ≤ wait) × (wait ≤ 120000)

  back_off-Waits :
      (now_ms : ℕ) (s : PhotoUploader)
      → IsPaused s
      → now_ms + 120000 < 4294967296
      → (wait : ℕ) × Waits now_ms wait (back_off now_ms s)
  unfolding back_off
  back_off-Waits now_ms s paused early =
      let (pause, long, short) = next_pause-IsLong s.upload_backoff_ms paused in
      (next_pause s.upload_backoff_ms, (omega (arith, short, early), long, short))

  gate :
      (now_ms wait later interval_ms motion_window_ms : ℕ) (connected : Bool) (s : PhotoUploader)
      → s.next_upload_allowed_ms ≡ now_ms + wait
      → should_upload later interval_ms motion_window_ms connected s
        ≡ leb (now_ms + wait) later
          && should_upload later interval_ms motion_window_ms connected
              (record s { next_upload_allowed_ms = 0 })
  unfolding should_upload
  gate now_ms wait later interval_ms motion_window_ms connected s next = ground (arith, next)

  abbrev Fails : ℕ → PhotoUploader × Result → Type 0
  Fails now_ms r = r.1 ≢ ok → r.1 ≢ auth_expired → (wait : ℕ) × Waits now_ms wait r.0

  upload_photo-Fails :
      (jpeg_len now_ms : ℕ) (net : Network) (s : PhotoUploader)
      → IsPaused s
      → now_ms + 120000 < 4294967296
      → 0 < jpeg_len
      → (not net.connects || all_written (chunks jpeg_len) net.writes) ≡ true
      → Fails now_ms (upload_photo to_int jpeg_len now_ms net s)
  unfolding upload_photo
  upload_photo-Fails jpeg_len now_ms net s paused early some_bytes written =
      let P = Fails now_ms in
      let waits = back_off-Waits now_ms (look_up net s) paused early in
      if_cases P (jpeg_len == 0) (λ empty. absurd (ground (arith, empty, some_bytes)))
        (λ _.
          if_both P (is_empty s.client_certificate_pem || is_empty s.client_private_key_pem)
            (λ bad refused. absurd (refused refl))
            (if_cases P (not net.connects) (λ _ bad refused. waits)
              (λ linked.
                if_cases P (not (all_written (chunks jpeg_len) net.writes))
                  (λ cut. absurd (ground (arith, linked, cut, written)))
                  (λ _.
                    take_status-both P now_ms (status_code to_int net.status_line) (look_up net s)
                      (λ bad refused. absurd (bad refl)) (λ bad refused. absurd (refused refl))
                      (λ bad refused. waits) (λ bad refused. waits)))))

  -- After any calls, an upload that fails, but neither for want of a picture, by its identity nor in
  -- a write, makes the next ones wait for a time of half a minute to two minutes: until it is over
  -- `shouldUpload` answers no, and from then on as if nothing had failed. The uptime does not wrap in
  -- the two minutes after the failure.
  pub failed_upload-waits :
      (calls : List Call) (jpeg_len now_ms : ℕ) (net : Network)
      (later interval_ms motion_window_ms : ℕ) (connected : Bool)
      → let r = upload_photo to_int jpeg_len now_ms net (run to_int calls initial) in
        now_ms + 120000 < 4294967296
        → 0 < jpeg_len
        → (not net.connects || all_written (chunks jpeg_len) net.writes) ≡ true
        → r.1 ≢ ok
        → r.1 ≢ auth_expired
        → (wait : ℕ) × (30000 ≤ wait)
          × (wait ≤ 120000)
          × (should_upload later interval_ms motion_window_ms connected r.0 ≡ (
              leb (now_ms + wait) later
              && should_upload later interval_ms motion_window_ms connected
                  (record r.0 { next_upload_allowed_ms = 0 })))
  failed_upload-waits calls jpeg_len now_ms net later interval_ms motion_window_ms connected early
        some_bytes written bad refused =
      let s = run to_int calls initial in
      let paused = run-IsPaused calls initial (unfold initial in inl refl) in
      let (wait, (next, long, short)) =
        upload_photo-Fails jpeg_len now_ms net s paused early some_bytes written bad refused in
      (
        wait,
        long,
        short,
        gate now_ms wait later interval_ms motion_window_ms connected
            (upload_photo to_int jpeg_len now_ms net s).0 next,
      )
