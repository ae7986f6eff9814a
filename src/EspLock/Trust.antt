-- ===== src/EspLock/Trust.antt =====
-- From a message to the lock: what an accepted message leaves behind, and which verb it performs.
use forge_key.Prelude.{
  ℕ, ◌<◌, ◌≡◌, ◌≢◌, refl, ◌∙◌, ap, Bool, true, false, ◌||◌, none, some, [], arith, leb, length,
  Text, codes, is_empty, text_eq, Bool-cases, Option-cases, inl, inr, take_all,
}
use forge_key.Json.{str, Document, text_or_empty}
use forge_key.Command.Replay.{Cache, replay_seen, remember, clip}
use forge_key.Command.Ring.{IsRing, remember_all, replay_seen-remember}
use forge_key.Command.Auth.{Libraries, Device, field}
use forge_key.EspLock.State.{Lock, unlocked}
use forge_key.EspLock.Orders.{handle_emergency_unlock, open_lock}
use forge_key.EspLock.Validation.{Rejection, command_error, remember_accepted}
use forge_key.EspLock.Dispatch.{
  Message, rejected, safety_sensitive, has_operator_identity, perform, of_lock, on_command,
}
use forge_key.EspLock.Envelope.{IsAccepted, command_error-IsAccepted}

remember_accepted-remember :
    (id nonce : Text) (c : Cache)
    → is_empty id ≡ false
    → is_empty nonce ≡ false
    → length id < 72
    → length nonce < 72
    → remember_accepted id nonce c ≡ (remember id nonce c).0
unfolding remember_accepted remember
remember_accepted-remember id nonce c e f s t =
    let i : clip id ≡ id = take_all 71 id (omega arith) in
    let n : clip nonce ≡ nonce = take_all 71 nonce (omega arith) in
    let l : leb 72 (length id) ≡ false = ground arith in
    let k : leb 72 (length nonce) ≡ false = ground arith in
    simp (e, f, i, n) (rw (e, l, f, k, remember) refl)

six_false :
    (a b c d e f : Bool)
    → (a || b || c || d || e || f) ≡ false
    → (b ≡ false) × (e ≡ false) × (f ≡ false)
six_false a b c d e f h = ground arith

two_short : (a b : ℕ) → (leb 72 a || leb 72 b) ≡ false → (a < 72) × (b < 72)
two_short a b h = ground arith

module _ (lib : Libraries) where
  -- The id, the nonce and the actor of an accepted message.
  named :
      (d : Device) (cache : Cache) (doc : Document)
      → IsAccepted lib d cache doc
      → (is_empty (field (codes "command_id") doc) ≡ false)
        × (is_empty (field (codes "nonce") doc) ≡ false)
        × (is_empty (field (codes "actor") doc) ≡ false)
        × (length (field (codes "command_id") doc) < 72)
        × (length (field (codes "nonce") doc) < 72)
  named d cache doc a =
      let (i, n, c) = six_false _ _ _ _ _ _ a.complete in
      let (s, t) = two_short _ _ a.short in (i, n, c, s, t)

  -- The identity that is asked for is there already.
  accepted-operator :
      (d : Device) (cache : Cache) (m : Message)
      → IsAccepted lib d cache m.exact
      → has_operator_identity m ≡ true
  unfolding has_operator_identity
  accepted-operator d cache m a = simp (named d cache m.exact a).2

  on_command-accepted :
      (d : Device) (m : Message) (now : ℕ) (cache : Cache) (l : Lock)
      → command_error lib (of_lock d l) cache m.exact ≡ none
      → (on_command lib d m now cache l).cache
          ≡ remember_accepted
              (field (codes "command_id") m.exact)
              (field (codes "nonce") m.exact)
              cache
        × ((on_command lib d m now cache l).lock
            ≡ (perform lib d m (field (codes "cmd") m.any_case) now l).0)
  unfolding on_command
  on_command-accepted d m now cache l h =
      let o =
        accepted-operator (of_lock d l) cache m
          (command_error-IsAccepted lib (of_lock d l) cache m.exact h) in
      elim (Bool-cases (safety_sensitive (field (codes "cmd") m.any_case))) [
        | inl s ↦ rw (h, s, o, on_command) (refl, refl)
        | inr s ↦ rw (h, s, on_command) (refl, refl)
      ]

  -- What an accepted message leaves in a valid ring: its own id and nonce.
  accepted-seen :
      (d : Device) (m : Message) (now : ℕ) (cache : Cache) (l : Lock)
      → IsRing cache
      → command_error lib (of_lock d l) cache m.exact ≡ none
      → replay_seen
          (field (codes "command_id") m.exact)
          (field (codes "nonce") m.exact)
          (on_command lib d m now cache l).cache
        ≡ true
  unfolding remember_all
  accepted-seen d m now cache l ring h =
      let id = field (codes "command_id") m.exact in
      let nonce = field (codes "nonce") m.exact in
      let (i, n, _, s, t) =
        named (of_lock d l) cache m.exact
          (command_error-IsAccepted lib (of_lock d l) cache m.exact h) in
      let e =
        (on_command-accepted d m now cache l h).0
        ∙ remember_accepted-remember id nonce cache i n s t in
      rw e (replay_seen-remember id nonce [] cache nonce ring (i, s, n, t) tt (omega arith)).0

  -- A message acts on the lock only if its envelope was accepted, with an authenticator that
  -- verifies and an id and a nonce that the cache did not hold; and then the cache holds them.
  pub on_command_sound :
      (d : Device) (m : Message) (now : ℕ) (cache : Cache) (l : Lock)
      → IsRing cache
      → (on_command lib d m now cache l).lock ≢ l
      → IsAccepted lib (of_lock d l) cache m.exact
        × (replay_seen
              (field (codes "command_id") m.exact)
              (field (codes "nonce") m.exact)
              (on_command lib d m now cache l).cache
            ≡ true)
  unfolding on_command
  on_command_sound d m now cache l ring moved =
      elim (Option-cases (command_error lib (of_lock d l) cache m.exact)) [
        | inr (x, e) ↦ absurd (moved (rw (e, on_command) refl))
        | inl e ↦ (
          command_error-IsAccepted lib (of_lock d l) cache m.exact e,
          accepted-seen d m now cache l ring e,
        )
      ]

  rejected_lem :
      (d : Device) (m : Message) (now : ℕ) (cache : Cache) (l : Lock) (x : Rejection)
      → command_error lib (of_lock d l) cache m.exact ≡ some x
      → ((on_command lib d m now cache l).lock ≡ l)
        × ((y : Rejection) × ((on_command lib d m now cache l).reply ≡ rejected y))
  unfolding on_command
  rejected_lem d m now cache l x f = (rw (f, on_command) refl, (x, rw (f, on_command) refl))

  -- An accepted message that comes again at once is rejected and leaves the lock as it is, whatever
  -- the clock shows by then.
  pub on_command_again :
      (d e : Device) (m : Message) (now later : ℕ) (cache : Cache) (l : Lock)
      → IsRing cache
      → command_error lib (of_lock d l) cache m.exact ≡ none
      → let r = on_command lib d m now cache l in
        let again = on_command lib e m later r.cache r.lock in
        (again.lock ≡ r.lock) × ((x : Rejection) × (again.reply ≡ rejected x))
  on_command_again d e m now later cache l ring h =
      let r = on_command lib d m now cache l in
      let seen = accepted-seen d m now cache l ring h in
      elim (Option-cases (command_error lib (of_lock e r.lock) r.cache m.exact)) [
        | inr (x, f) ↦ rejected_lem e m later r.cache r.lock x f
        | inl f ↦
            cc ((command_error-IsAccepted lib (of_lock e r.lock) r.cache m.exact f).fresh, seen)
      ]

  emergency_verb :
      (d : Device) (m : Message) (now : ℕ) (l : Lock)
      → (perform lib d m (codes "emergency_unlock") now l).0 ≡ handle_emergency_unlock now l
  unfolding perform text_eq
  emergency_verb d m now l = refl

  -- The verb that is validated need not be the verb that is performed: a message whose envelope is
  -- accepted, with whatever "cmd", and in which cJSON_GetObjectItem finds "emergency_unlock" under a
  -- name like "CMD", opens the lock and powers the solenoid.
  pub disguised_unlocks :
      (d : Device) (m : Message) (now : ℕ) (cache : Cache) (l : Lock)
      → command_error lib (of_lock d l) cache m.exact ≡ none
      → m.any_case (codes "cmd") ≡ str (codes "emergency_unlock")
      → ((on_command lib d m now cache l).lock.state ≡ unlocked)
        × ((on_command lib d m now cache l).lock.solenoid_on ≡ true)
  unfolding handle_emergency_unlock open_lock
  disguised_unlocks d m now cache l h e =
      let performed = (on_command-accepted d m now cache l h).1 in
      let verb : field (codes "cmd") m.any_case ≡ codes "emergency_unlock" = ap text_or_empty e in
      let opened : (on_command lib d m now cache l).lock ≡ handle_emergency_unlock now l =
        performed ∙ (ap (λ c. (perform lib d m c now l).0) verb ∙ emergency_verb d m now l) in
      (ap (λ (x : Lock). x.state) opened, ap (λ (x : Lock). x.solenoid_on) opened)
