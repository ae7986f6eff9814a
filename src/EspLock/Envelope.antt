-- ===== src/EspLock/Envelope.antt =====
-- What the validation of the lock firmware binds, and what it does not.
use forge_key.Prelude.{
  ℕ, ◌<◌, ◌≡◌, refl, Bool, true, false, ◌||◌, Option, none, some, arith, if◌then◌else◌, length,
  Text, codes, is_empty, text_eq, Bool-cases, Option-cases, inl, inr,
}
use forge_key.Json.{str, Document}
use forge_key.Command.Replay.{Cache, replay_seen}
use forge_key.Command.Auth.{Libraries, Device, field, parse_epoch}
use forge_key.Command.Validate.{
  lacks_field, lacks_authenticator, too_long, uses_server_challenge_flow, time_error,
}
use forge_key.EspLock.Validation.{
  Rejection, authenticator_error, late_error, times_error, command_error,
}

past_guards :
    (a b c : Bool) (x y z : Rejection) (r : Option Rejection)
    → (if a then some x else if b then some y else if c then some z else r) ≡ none
    → (a ≡ false) × (b ≡ false) × (c ≡ false) × (r ≡ none)
past_guards true b c x y z r h = cc
past_guards false true c x y z r h = cc
past_guards false false true x y z r h = cc
past_guards false false false x y z r h = (refl, refl, refl, h)

-- The command with another id and another nonce.
abbrev pub rename : Text → Text → Document → Document
rename id nonce doc name =
    if text_eq name (codes "command_id")
    then str id
    else if text_eq name (codes "nonce")
    then str nonce
    else doc name

six_false :
    (a b c d e f : Bool)
    → (a || b || c || d || e || f) ≡ false
    → (a ≡ false) × (c ≡ false) × (d ≡ false) × (f ≡ false)
six_false a b c d e f h = ground arith

all_false :
    (a b c d e f : Bool)
    → a ≡ false
    → b ≡ false
    → c ≡ false
    → d ≡ false
    → e ≡ false
    → f ≡ false
    → (a || b || c || d || e || f) ≡ false
all_false a b c d e f h i j k l m = ground arith

rename-lacks_field :
    (id nonce : Text) (doc : Document)
    → is_empty id ≡ false
    → is_empty nonce ≡ false
    → lacks_field doc ≡ false
    → lacks_field (rename id nonce doc) ≡ false
unfolding text_eq
rename-lacks_field id nonce doc e f h =
    let (a, c, d, g) = six_false _ _ _ _ _ _ h in all_false _ _ _ _ _ _ a e c d f g

module _ (lib : Libraries) where
  -- All that the validation asks, with the two times that it reads.
  pub record IsAccepted (d : Device) (cache : Cache) (doc : Document) : Type 0 where
    pub issued_at : ℕ
    pub expires_at : ℕ
    pub complete : lacks_field doc ≡ false
    pub has_authenticator : lacks_authenticator doc ≡ false
    pub short : too_long doc ≡ false
    pub issued : parse_epoch lib (doc (codes "issued_at")) ≡ some issued_at
    pub expires : parse_epoch lib (doc (codes "expires_at")) ≡ some expires_at
    pub timely : time_error d (uses_server_challenge_flow doc) issued_at expires_at ≡ none
    pub fresh :
        replay_seen (field (codes "command_id") doc) (field (codes "nonce") doc) cache ≡ false
    pub authentic : authenticator_error lib d doc ≡ none

  late_error-none :
      (d : Device) (cache : Cache) (doc : Document) (issued expires : ℕ)
      → late_error lib d cache doc issued expires ≡ none
      → (time_error d (uses_server_challenge_flow doc) issued expires ≡ none)
        × (replay_seen (field (codes "command_id") doc) (field (codes "nonce") doc) cache ≡ false)
        × (authenticator_error lib d doc ≡ none)
  unfolding late_error
  late_error-none d cache doc issued expires h =
      elim (Option-cases (time_error d (uses_server_challenge_flow doc) issued expires)) [
        | inr (x, e) ↦ cc (rw (e, late_error) at h)
        | inl e ↦
            elim (Bool-cases
              (replay_seen (field (codes "command_id") doc) (field (codes "nonce") doc) cache)) [
                | inl f ↦ cc (rw (e, f, late_error) at h)
                | inr f ↦ (e, f, rw (e, f, late_error) at h)
              ]
      ]

  times_error-late :
      (d : Device) (cache : Cache) (doc : Document)
      → times_error lib d cache doc ≡ none
      → (issued : ℕ) × (expires : ℕ) × (parse_epoch lib (doc (codes "issued_at")) ≡ some issued)
        × (parse_epoch lib (doc (codes "expires_at")) ≡ some expires)
        × (late_error lib d cache doc issued expires ≡ none)
  unfolding times_error
  times_error-late d cache doc h = elim (Option-cases (parse_epoch lib (doc (codes "issued_at")))) [
    | inl i ↦ cc (rw (i, times_error) at h)
    | inr (issued, i) ↦ elim (Option-cases (parse_epoch lib (doc (codes "expires_at")))) [
      | inl x ↦ cc (rw (i, x, times_error) at h)
      | inr (expires, x) ↦ (issued, expires, i, x, rw (i, x, times_error) at h)
    ]
  ]

  pub command_error-IsAccepted :
      (d : Device) (cache : Cache) (doc : Document)
      → command_error lib d cache doc ≡ none
      → IsAccepted d cache doc
  unfolding command_error
  command_error-IsAccepted d cache doc h =
      let (e, f, g, k) =
        past_guards (lacks_field doc) (lacks_authenticator doc) (too_long doc) _ _ _
          (times_error lib d cache doc) h in
      let (issued, expires, i, x, late) = times_error-late d cache doc k in
      let (t, r, a) = late_error-none d cache doc issued expires late in
      record {
        issued_at = issued;
        expires_at = expires;
        complete = e;
        has_authenticator = f;
        short = g;
        issued = i;
        expires = x;
        timely = t;
        fresh = r;
        authentic = a;
      }

  pub IsAccepted-command_error :
      (d : Device) (cache : Cache) (doc : Document)
      → IsAccepted d cache doc
      → command_error lib d cache doc ≡ none
  unfolding command_error times_error late_error
  IsAccepted-command_error d cache doc a =
      let late : late_error lib d cache doc a.issued_at a.expires_at ≡ none =
        rw (a.timely, a.fresh, late_error) a.authentic in
      let times : times_error lib d cache doc ≡ none = rw (a.issued, a.expires, times_error) late in
      simp (a.complete, a.has_authenticator, a.short) times

  same_token :
      (d : Device) (doc : Document) (id nonce : Text)
      → is_empty (field (codes "jwt") doc) ≡ false
      → authenticator_error lib d doc ≡ none
      → authenticator_error lib d (rename id nonce doc) ≡ none
  unfolding text_eq authenticator_error
  same_token d doc id nonce jwt h = simp jwt (simp jwt at h)

  -- A token authenticates a command under every id and nonce: if a command with a token is accepted,
  -- then so is the same command under any other id and nonce that fit and that the cache at hand
  -- does not hold, whether or not the cache holds the first.
  pub renamed_command_error :
      (d : Device) (cache cache' : Cache) (doc : Document) (id nonce : Text)
      → command_error lib d cache doc ≡ none
      → is_empty (field (codes "jwt") doc) ≡ false
      → is_empty id ≡ false
      → is_empty nonce ≡ false
      → length id < 72
      → length nonce < 72
      → replay_seen id nonce cache' ≡ false
      → command_error lib d cache' (rename id nonce doc) ≡ none
  unfolding text_eq
  renamed_command_error d cache cache' doc id nonce h jwt e f short short' new =
      let a = command_error-IsAccepted d cache doc h in
      IsAccepted-command_error d cache' (rename id nonce doc) (record {
        issued_at = a.issued_at;
        expires_at = a.expires_at;
        complete = rename-lacks_field id nonce doc e f a.complete;
        has_authenticator = a.has_authenticator;
        short = ground arith;
        issued = a.issued;
        expires = a.expires;
        timely = a.timely;
        fresh = new;
        authentic = same_token d doc id nonce jwt a.authentic;
      })
