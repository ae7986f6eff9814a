-- ===== src/Ota/Failure.antt =====
-- What a failing `apply` leaves behind.
use forge_key.Prelude.{
  ℕ, ◌==◌, ◌≡◌, refl, Bool, true, false, not, none, List, [], ◌∷◌, ◌++◌, ℤ, if◌then◌else◌, Text,
  All, Bool-cases, if_both, subst, ap, Option-cases, ◌⊎◌, inl, inr,
}
use forge_key.Ota.Spec.{Spec}
use forge_key.Ota.Policy.{Build}
use forge_key.Ota.Url.{Url, split_url}
use forge_key.Ota.Signature.{Mbedtls, Anchors}
use forge_key.Ota.Download.{Effect, notify, verifying, stop, Download, started, download}
use forge_key.Ota.Installed.{Progress-cases}
use forge_key.Ota.Apply.{
  World, refused, Outcome, image_refusal, is_200, status_code, content_length, finish, run_download,
  fetch, apply,
}
use forge_key.Ota.Tally.{
  IsQuiet, Tally, counted, quiet-Tally, Tally-append, state_of, download-IsQuiet, IsClean,
  Tally-IsClean, closing,
}

abbrev CleanFailure : Bool → Outcome → Type 0
CleanFailure begins o = IsClean begins o.effects × (o.updating ≡ false)

-- What holds of each refusal of a chain of guards, and of its end if that refuses.
guards_keep :
    (P : Outcome → Type 0) (a b c d : Bool) (o p q r s : Outcome)
    → P o
    → P p
    → P q
    → (d ≡ false → P r)
    → (d ≡ true → s.end ≡ refused → P s)
    → (if not a then o else if not b then p else if c then q else if not d then r else s).end
      ≡ refused
    → P (if not a then o else if not b then p else if c then q else if not d then r else s)
guards_keep P false b c d o p q r s x y z u v h = x
guards_keep P true false c d o p q r s x y z u v h = y
guards_keep P true true true d o p q r s x y z u v h = z
guards_keep P true true false false o p q r s x y z u v h = u refl
guards_keep P true true false true o p q r s x y z u v h = v refl h

module _ (tls : Mbedtls) (anchors : Anchors) (to_int : Text → ℤ) (build : Build) where
  -- Where a refusal comes after the last byte.
  finish-IsClean :
      (w : World) (spec : Spec) (log : List Effect) (d : Download)
      → w.begins ≡ true
      → Tally log 1 1 0 0
      → (finish tls anchors to_int build w spec log d).end ≡ refused
      → CleanFailure w.begins (finish tls anchors to_int build w spec log d)
  unfolding finish
  finish-IsClean w spec log d b t h =
      let tail : Tally (stop ∷ notify verifying ∷ []) 0 0 0 0 = counted _ refl in
      let log-Tally = Tally-append log (stop ∷ notify verifying ∷ []) 1 1 0 0 0 0 0 0 t tail in
      elim (Option-cases (image_refusal tls anchors to_int build spec (tls.sha256 d.hashed))) [
        | inr (n, e) ↦ rw (e, finish) (closing w.begins _ _ b log-Tally (counted _ refl), refl)
        | inl e ↦ elim (Bool-cases w.ends) [
          | inl f ↦ cc (rw (e, f, finish) at h)
          | inr f ↦ rw (e, f, finish) (closing w.begins _ _ b log-Tally (counted _ refl), refl)
        ]
      ]

  run_download-IsClean :
      (w : World) (spec : Spec) (log : List Effect) (total : ℕ)
      → w.begins ≡ true
      → Tally log 1 1 0 0
      → (run_download tls anchors to_int build w spec log total).end ≡ refused
      → CleanFailure w.begins (run_download tls anchors to_int build w spec log total)
  unfolding run_download
  run_download-IsClean w spec log total b t h =
      let begun = started w.start_ms in
      let quiet : (d : Download)
          → state_of (download total w.polls begun) ≡ d
          → Tally (log ++ d.log) 1 1 0 0 =
        λ d e. Tally-append log d.log 1 1 0 0 0 0 0 0 t (
          quiet-Tally d.log (
            subst (λ (x : Download). All IsQuiet x.log) e
              (download-IsQuiet total w.polls begun tt))) in
      elim (Progress-cases (download total w.polls begun)) [
        | inl (d, e) ↦
            rw (e, run_download)
              (finish-IsClean w spec (log ++ d.log) d b (quiet d (ap state_of e))
                (rw (e, run_download) at h))
        | inr (inl (d, e)) ↦ cc (rw (e, run_download) at h)
        | inr (inr (s, d, e)) ↦
            rw (e, run_download)
              (closing w.begins _ _ b (quiet d (ap state_of e)) (counted _ refl), refl)
      ]

  -- The effects before the flash update begins.
  fetch-IsClean :
      (w : World) (spec : Spec) (url : Url)
      → (fetch tls anchors to_int build w spec url).end ≡ refused
      → CleanFailure w.begins (fetch tls anchors to_int build w spec url)
  unfolding fetch
  fetch-IsClean w spec url h =
      let none_begun : 0 ≡ (if w.begins then 0 else 0) = if_both (λ n. 0 ≡ n) w.begins refl refl in
      let early : (es : List Effect) → Tally es 0 0 0 0 → IsClean w.begins es =
        λ es t. Tally-IsClean w.begins es 0 0 none_begun t in
      guards_keep (CleanFailure w.begins) (w.connects url.host url.port)
        (is_200 (status_code to_int w.status_line)) (content_length to_int 0 w.headers == 0)
        w.begins _ _ _ _ _ (early _ (counted _ refl), refl) (early _ (counted _ refl), refl)
        (early _ (counted _ refl), refl)
        (λ off. (Tally-IsClean w.begins _ 1 0 (rw off refl) (counted _ refl), refl))
        (λ on.
          run_download-IsClean w spec _ (content_length to_int 0 w.headers) on (counted _ refl))
        h

  -- If `apply` returns, then it has paused the watchdog as often as a flash update has begun, that
  -- is as often as it called `Update.begin` if that succeeds, and never if that fails; it has ended
  -- or aborted an update as often, and resumed the watchdog as often; and it has neither stored the
  -- versions nor restarted. `updating` is then false, or where the URL was malformed, as it was
  -- before.
  pub apply-IsClean :
      (w : World) (spec : Spec) (was_updating : Bool)
      → (apply tls anchors to_int build w spec was_updating).end ≡ refused
      → IsClean w.begins (apply tls anchors to_int build w spec was_updating).effects
        × (((apply tls anchors to_int build w spec was_updating).updating ≡ false)
            ⊎ ((split_url to_int spec.url ≡ none)
                × ((apply tls anchors to_int build w spec was_updating).updating ≡ was_updating)))
  unfolding apply
  apply-IsClean w spec was_updating h = elim (Option-cases (split_url to_int spec.url)) [
    | inl e ↦
        rw (e, apply)
          (
            record {
              begun = if_both (λ n. 0 ≡ n) w.begins refl refl;
              resumed = refl;
              closed = refl;
              untouched = refl;
            },
            inr (refl, refl),
          )
    | inr (url, e) ↦
        let (clean, off) = fetch-IsClean w spec url (rw (e, apply) at h) in
        rw (e, apply) (clean, inl off)
  ]
