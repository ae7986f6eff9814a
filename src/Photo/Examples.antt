-- ===== src/Photo/Examples.antt =====
-- A device whose first upload meets a server that is out of order.
use forge_key.Prelude.{
  ℕ, ◌≡◌, ◌≤◌, ◌+◌, refl, true, ◌&&◌, [], ◌∷◌, arith, leb, codes, index_of, pos, Text, ℤ, List,
}
use forge_key.Ota.Strings.{trim, trim_end}
use forge_key.Ota.Apply.{status_code}
use forge_key.Photo.Uploader.{
  Network, initial, upload_photo, should_upload, all_written, take_status, begin,
  set_client_identity,
}
use forge_key.Photo.Backoff.{Call, start, identity, run, step, failed_upload-waits}

abbrev out_of_order : Network
out_of_order = record {
  resolves = [];
  connects = true;
  writes = true ∷ true ∷ [];
  status_line = codes "HTTP/1.1 503 Unavailable";
}

abbrev to_int : Text → ℤ
to_int t = pos 503

abbrev calls : List Call
calls = start (codes "oms") 443 (codes "aa") true ∷ identity (codes "cert") (codes "key") ∷ []

failed_upload-waits_example :
    let t = (upload_photo to_int 1500 60000 out_of_order (run to_int calls initial)).0 in
    (wait : ℕ) × (30000 ≤ wait)
    × (wait ≤ 120000)
    × (should_upload 70000 300000 600000 true t ≡ (
        leb (60000 + wait) 70000
        && should_upload 70000 300000 600000 true (record t { next_upload_allowed_ms = 0 })))
unfolding upload_photo all_written take_status status_code trim trim_end index_of run step initial
    begin set_client_identity
failed_upload-waits_example =
    failed_upload-waits to_int calls 1500 60000 out_of_order 70000 300000 600000 true (omega arith)
      (omega arith) refl (λ e. cc) (λ e. cc)
