-- ===== src/Command/Soundness.antt =====
-- What an accepted command has shown, and that a replayed one is refused.
use forge_key.Prelude.{
  All, is_empty, length, take, ◌↔◌, ℕ, ◌+◌, ◌≤◌, ◌<◌, ◌≡◌, refl, Bool, true, false, Option, none,
  some, arith, codes, ◌⊎◌, inl, inr, Option-cases,
}
use forge_key.Json.{Document}
use forge_key.Command.Envelope.{
  HasAll, IsOther, lacks_field-HasAll, HasAll-lacks_field, some_authenticator, no_authenticator,
  any_match-IsOther, IsOther-any_match,
}
use forge_key.Command.Genuine.{
  IsGenuine, authenticator_error-IsGenuine, IsGenuine-authenticator_error,
}
use forge_key.Command.Replay.{Cache, replay_seen}
use forge_key.Command.Auth.{Libraries, Device, Error, field, parse_epoch}
use forge_key.Command.Validate.{
  lacks_field, lacks_authenticator, too_long, uses_server_challenge_flow, time_error,
  authenticator_error, late_error, times_error, command_error,
}

-- The two times of a command are in order and fit the clock, if the device has a valid one;
-- without one the command is part of a challenge that the server runs.
pub record IsTimely (d : Device) (challenge : Bool) (issued_at expires_at : ℕ) : Type 0 where
  pub in_order : issued_at < expires_at
  pub clock_or_challenge : (d.clock_valid ≡ true) ⊎ (challenge ≡ true)
  pub not_expired : d.clock_valid ≡ true → d.epoch_now ≤ expires_at
  pub not_early : d.clock_valid ≡ true → issued_at ≤ d.epoch_now + 300

time_error-IsTimely :
    (d : Device) (challenge : Bool) (issued_at expires_at : ℕ)
    → time_error d challenge issued_at expires_at ≡ none
    → IsTimely d challenge issued_at expires_at
unfolding time_error
time_error-IsTimely d challenge issued_at expires_at h = ground arith

IsTimely-time_error :
    (d : Device) (challenge : Bool) (issued_at expires_at : ℕ)
    → IsTimely d challenge issued_at expires_at
    → time_error d challenge issued_at expires_at ≡ none
unfolding time_error
IsTimely-time_error d challenge issued_at expires_at h = ground arith

module _ (lib : Libraries) where
  -- All that the validation asks of a command, with the two times that it reads.
  pub record IsAcceptable (d : Device) (cache : Cache) (doc : Document) (issued_at expires_at : ℕ)
      : Type 0 where
    pub complete : HasAll doc
    pub has_authenticator :
        (is_empty (field (codes "jwt") doc) ≡ false)
        ⊎ (is_empty (field (codes "signature") doc) ≡ false)
    pub short_id : length (field (codes "command_id") doc) < 72
    pub short_nonce : length (field (codes "nonce") doc) < 72
    pub issued : parse_epoch lib (doc (codes "issued_at")) ≡ some issued_at
    pub expires : parse_epoch lib (doc (codes "expires_at")) ≡ some expires_at
    pub timely : IsTimely d (uses_server_challenge_flow doc) issued_at expires_at
    pub fresh :
        All
          (IsOther (field (codes "command_id") doc) (field (codes "nonce") doc))
          (take cache.count cache.slots)
    pub authentic : IsGenuine lib d doc

  not_seen :
      (d : Device) (cache : Cache) (doc : Document)
      → HasAll doc
      → replay_seen (field (codes "command_id") doc) (field (codes "nonce") doc) cache ≡ false
      → All
          (IsOther (field (codes "command_id") doc) (field (codes "nonce") doc))
          (take cache.count cache.slots)
  not_seen d cache doc all h =
      any_match-IsOther (field (codes "command_id") doc) (field (codes "nonce") doc)
        (take cache.count cache.slots) all.command_id all.nonce (unfold replay_seen in h)

  -- The same in the words of the code.
  pub IsAcceptable-tests :
      (d : Device) (cache : Cache) (doc : Document) (issued_at expires_at : ℕ)
      → IsAcceptable d cache doc issued_at expires_at
      → (lacks_field doc ≡ false)
        × (lacks_authenticator doc ≡ false)
        × (too_long doc ≡ false)
        × (replay_seen (field (codes "command_id") doc) (field (codes "nonce") doc) cache ≡ false)
  IsAcceptable-tests d cache doc issued_at expires_at a =
      let id = a.short_id in
      let nonce = a.short_nonce in
      (
        HasAll-lacks_field doc a.complete,
        no_authenticator _ _ a.has_authenticator,
        ground arith,
        unfold replay_seen in IsOther-any_match _ _ (take cache.count cache.slots) a.fresh,
      )

  late_error-none :
      (d : Device) (cache : Cache) (doc : Document) (issued_at expires_at : ℕ)
      → late_error lib d cache doc issued_at expires_at ≡ none
      → (time_error d (uses_server_challenge_flow doc) issued_at expires_at ≡ none)
        × (replay_seen (field (codes "command_id") doc) (field (codes "nonce") doc) cache ≡ false)
        × (authenticator_error lib d doc ≡ none)
  unfolding late_error
  late_error-none d cache doc issued_at expires_at h =
      by_time (time_error d (uses_server_challenge_flow doc) issued_at expires_at) refl
        (replay_seen (field (codes "command_id") doc) (field (codes "nonce") doc) cache) refl
    where
      by_time :
          (e : Option Error)
          → time_error d (uses_server_challenge_flow doc) issued_at expires_at ≡ e
          → (seen : Bool)
          → replay_seen (field (codes "command_id") doc) (field (codes "nonce") doc) cache ≡ seen
          → (time_error d (uses_server_challenge_flow doc) issued_at expires_at ≡ none)
            × (replay_seen (field (codes "command_id") doc) (field (codes "nonce") doc) cache
                ≡ false)
            × (authenticator_error lib d doc ≡ none)
      by_time (some e) t seen r = cc (rw (t, late_error) at h)
      by_time none t true r = cc (rw (t, r, late_error) at h)
      by_time none t false r = (t, r, rw (t, r, late_error) at h)

  times_error-none :
      (d : Device) (cache : Cache) (doc : Document)
      → times_error lib d cache doc ≡ none
      → (issued_at expires_at : ℕ) × (parse_epoch lib (doc (codes "issued_at")) ≡ some issued_at)
        × (parse_epoch lib (doc (codes "expires_at")) ≡ some expires_at)
        × (late_error lib d cache doc issued_at expires_at ≡ none)
  unfolding times_error
  times_error-none d cache doc h = elim (Option-cases (parse_epoch lib (doc (codes "issued_at")))) [
    | inl e ↦ cc (rw (e, times_error) at h)
    | inr (i, e) ↦ elim (Option-cases (parse_epoch lib (doc (codes "expires_at")))) [
      | inl f ↦ cc (rw (e, f, times_error) at h)
      | inr (x, f) ↦ (i, x, e, f, rw (e, f, times_error) at h)
    ]
  ]

  command_error-none :
      (d : Device) (cache : Cache) (doc : Document)
      → command_error lib d cache doc ≡ none
      → (lacks_field doc ≡ false)
        × (lacks_authenticator doc ≡ false)
        × (too_long doc ≡ false)
        × (times_error lib d cache doc ≡ none)
  unfolding command_error
  command_error-none d cache doc h =
      by_tests (lacks_field doc) refl (lacks_authenticator doc) refl (too_long doc) refl
    where
      by_tests :
          (a : Bool)
          → lacks_field doc ≡ a
          → (b : Bool) → lacks_authenticator doc ≡ b
          → (c : Bool) → too_long doc ≡ c
          → (lacks_field doc ≡ false)
            × (lacks_authenticator doc ≡ false)
            × (too_long doc ≡ false)
            × (times_error lib d cache doc ≡ none)
      by_tests true p b q c r = cc (rw p at h)
      by_tests false p true q c r = cc (rw (p, q) at h)
      by_tests false p false q true r = cc (rw (p, q, r) at h)
      by_tests false p false q false r = (p, q, r, rw (p, q, r) at h)

  -- A command is accepted exactly if it is acceptable: each of the six envelope fields is there, as
  -- is a token or a signature; id and nonce are shorter than 72 bytes; both times are read, in order
  -- and within the clock's tolerance; no entry of the cache has its id or its nonce; and a token that
  -- binds the command and has not expired, or without a token its signature, is verified by the
  -- device's key.
  pub command_error_iff :
      (d : Device) (cache : Cache) (doc : Document)
      → (command_error lib d cache doc ≡ none)
        ↔ ((issued_at : ℕ) × (expires_at : ℕ) × IsAcceptable d cache doc issued_at expires_at)
  command_error_iff d cache doc = (accepted, acceptable)
    where
      accepted :
          command_error lib d cache doc ≡ none
          → (issued_at : ℕ) × (expires_at : ℕ) × IsAcceptable d cache doc issued_at expires_at
      accepted h =
          let (p, q, r, t) = command_error-none d cache doc h in
          let (i, x, e, f, l) = times_error-none d cache doc t in
          let (time, seen, auth) = late_error-none d cache doc i x l in
          (
            i,
            x,
            record {
              complete = lacks_field-HasAll doc p;
              has_authenticator = some_authenticator _ _ q;
              short_id = ground arith;
              short_nonce = ground arith;
              issued = e;
              expires = f;
              timely = time_error-IsTimely d (uses_server_challenge_flow doc) i x time;
              fresh = not_seen d cache doc (lacks_field-HasAll doc p) seen;
              authentic = authenticator_error-IsGenuine lib d doc auth;
            },
          )

      acceptable :
          ((issued_at : ℕ) × (expires_at : ℕ) × IsAcceptable d cache doc issued_at expires_at)
          → command_error lib d cache doc ≡ none
      acceptable (i, x, a) =
          let (complete, has_authenticator, short, fresh) = IsAcceptable-tests d cache doc i x a in
          unfold command_error times_error late_error in
          rw
            (
              complete,
              has_authenticator,
              short,
              a.issued,
              a.expires,
              IsTimely-time_error d (uses_server_challenge_flow doc) i x a.timely,
              fresh,
              command_error,
              times_error,
              late_error,
            )
            (IsGenuine-authenticator_error lib d doc a.authentic)
