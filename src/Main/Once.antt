-- ===== src/Main/Once.antt =====
-- Messages on the command topic, one after the other.
use forge_key.Prelude.{
  ◌≤◌, ◌≡◌, ◌⊎◌, inl, inr, refl, false, ap, ◌∙◌, sym, true, Option, none, some, List, [], ◌∷◌,
  arith, length, Text, Option-cases, if_both, subst, if◌then◌else◌, suc,
}
use forge_key.Json.{Conversions}
use forge_key.Command.Auth.{Libraries, Device, Error, field}
use forge_key.Command.Validate.{validate, command_error, canonical_error, remember_accepted, Result}
use forge_key.Command.Ring.{IsRing}
use forge_key.Command.Repeat.{
  Arrival, names, verdict, handle, handle_all, handle_all-refuses, load_replay_cache-loaded,
}
use forge_key.Main.Indicator.{Message, Numbers}
use forge_key.Main.Restart.{reboots, booted}
use forge_key.Main.Commands.{
  Flags, Action, rejected, Machine, Moment, perform_lock, perform_common, perform, remembered,
  answer, on_command_message, is_support, perform_ble,
}

-- A message on the topic, with what the device finds when it comes.
pub record Post : Type 0 where
  pub device : Device
  pub moment : Moment
  pub message : Option Message

remembered-cache :
    (r : Result) (s : Machine) → (remembered r s).cache ≡ (remember_accepted r s.cache).0
unfolding remembered
remembered-cache r s = refl

canonical_error-eq : (r : Result) (e : Error) → r.error ≡ some e → canonical_error r ≡ e
unfolding canonical_error
canonical_error-eq r e h = ground (arith, h)

abbrev pub post : Device → Moment → Message → Post
post d t m = record { device = d; moment = t; message = some m }

module _ (lib : Libraries) (flags : Flags) (nums : Numbers) (json : Conversions) where
  -- The handler, and the reboot where it ends in one.
  unfoldable pub take_post : Post → Machine → Machine
  take_post p s =
      let (after, actions) = on_command_message lib flags nums json p.device p.moment p.message s in
      if reboots actions then booted after else after

  unfoldable pub take_posts : List Post → Machine → Machine
  take_posts [] s = s
  take_posts (p ∷ ps) s = take_posts ps (take_post p s)

  -- None of the messages makes the device reboot.
  abbrev pub StaysUp : List Post → Machine → Type 0
  StaysUp [] s = Unit
  StaysUp (p ∷ ps) s =
      (reboots (on_command_message lib flags nums json p.device p.moment p.message s).1 ≡ false)
      × StaysUp ps (take_post p s)

  pub take_post-up :
      (p : Post) (s : Machine)
      → reboots (on_command_message lib flags nums json p.device p.moment p.message s).1 ≡ false
      → take_post p s ≡ (on_command_message lib flags nums json p.device p.moment p.message s).0
  unfolding take_post
  take_post-up p s h = rw h refl

  -- The cache and its text in flash are as they were.
  abbrev pub Keeps : Machine → Machine × List Action → Type 0
  Keeps s r = (r.0.cache ≡ s.cache) × (r.0.stored ≡ s.stored)

  pub perform-Keeps :
      (d : Device) (t : Moment) (cmd : Text) (m : Message) (actor : Text) (s : Machine)
      → Keeps s (perform lib flags nums json d t cmd m actor s)
  unfolding perform
  perform-Keeps d t cmd m actor s =
      if_both (Keeps s) (is_support cmd) (refl, refl)
        (after (perform_common lib flags nums json t cmd m actor))
    where
      after :
          (o : Option (List Action))
          → let l = perform_lock lib flags nums json d t cmd m.fields s.lock in
            Keeps s (elim o [
              | some actions ↦ (s, actions)
              | none ↦
                  if flags.is_lock
                  then (record s { lock = l.0 }, l.1)
                  else (s, perform_ble flags cmd m.fields)
            ])
      after (some actions) = (refl, refl)
      after none = if_both (Keeps s) flags.is_lock (refl, refl) (refl, refl)

  abbrev pub arrival : Device → Message → Machine → Arrival
  arrival d m s = record { device = d; stored = s.stored; document = m.fields }

  answer-cache :
      (d : Device) (t : Moment) (m : Message) (r : Result) (s : Machine) (e : Option Error)
      → r.error ≡ e
      → (answer lib flags nums json d t m r s e).0.cache ≡ (remember_accepted r s.cache).0
  unfolding answer remember_accepted
  answer-cache d t m r s (some e) h = rw h refl
  answer-cache d t m r s none h =
      (perform-Keeps d t (field _ m.fields) m r.actor (remembered r s)).0 ∙ remembered-cache r s

  -- The cache after a message is the one that the validation alone would leave.
  pub on_command_message-cache :
      (d : Device) (t : Moment) (m : Message) (s : Machine)
      → (on_command_message lib flags nums json d t (some m) s).0.cache
        ≡ handle lib (arrival d m s) s.cache
  unfolding on_command_message handle
  on_command_message-cache d t m s =
      let (cache, r) = validate lib d s.stored s.cache m.fields in
      answer-cache d t m r (record s { cache = cache }) r.error refl

  -- The arrivals among some posts: those that are JSON texts.
  abbrev arrive : Device → Option Message → Machine → List Arrival → List Arrival
  arrive d none s as' = as'
  arrive d (some m) s as' = arrival d m s ∷ as'

  pub arrivals : List Post → Machine → List Arrival
  arrivals [] s = []
  arrivals (p ∷ ps) s = arrive p.device p.message s (arrivals ps (take_post p s))

  arrive-cache :
      (d : Device) (t : Moment) (message : Option Message) (s : Machine) (as' : List Arrival)
      → handle_all lib (arrive d message s as') s.cache
        ≡ handle_all lib as' (on_command_message lib flags nums json d t message s).0.cache
  unfolding handle_all
  arrive-cache d t none s as' = unfold on_command_message in refl
  arrive-cache d t (some m) s as' = ap (handle_all lib as') (sym (on_command_message-cache d t m s))

  length-arrive :
      (d : Device) (message : Option Message) (s : Machine) (as' : List Arrival)
      → length (arrive d message s as') ≤ suc (length as')
  length-arrive d none s as' = omega arith
  length-arrive d (some m) s as' = omega arith

  take_posts-cache :
      (ps : List Post) (s : Machine)
      → StaysUp ps s
      → ((take_posts ps s).cache ≡ handle_all lib (arrivals ps s) s.cache)
        × (length (arrivals ps s) ≤ length ps)
  unfolding take_posts arrivals handle_all
  take_posts-cache [] s up = (refl, omega arith)
  take_posts-cache (p ∷ ps) s up =
      let next = take_post p s in
      let later = arrivals ps next in
      let (same, few) = take_posts-cache ps next up.1 in
      (
        same
            ∙ ap (λ (x : Machine). handle_all lib later x.cache) (take_post-up p s up.0)
            ∙ sym (arrive-cache p.device p.moment p.message s later),
        omega (arith, few, length-arrive p.device p.message s later),
      )

  -- The cache after a first message and some more.
  pub post-cache :
      (d : Device) (t : Moment) (a : Message) (ps : List Post) (s : Machine)
      → StaysUp (post d t a ∷ ps) s
      → let later = arrivals ps (take_post (post d t a) s) in
        ((take_posts (post d t a ∷ ps) s).cache
          ≡ handle_all lib later (handle lib (arrival d a s) s.cache))
        × (length later ≤ length ps)
  unfolding arrivals handle_all
  post-cache d t a ps s up =
      let (same, few) = take_posts-cache (post d t a ∷ ps) s up in (same, omega (arith, few))

  -- A message that validation refuses does nothing but report its error.
  pub refused-quiet :
      (d : Device) (t : Moment) (m : Message) (s : Machine) (e : Error)
      → verdict lib (arrival d m s) s.cache ≡ some e
      → let r = on_command_message lib flags nums json d t (some m) s in
        (r.0.lock ≡ s.lock) × (r.0.support ≡ s.support) × (r.1 ≡ rejected e ∷ [])
  unfolding on_command_message answer
  refused-quiet d t m s e h =
      let r = (validate lib d s.stored s.cache m.fields).1 in
      rw h (refl, refl, ap (λ x. rejected x ∷ []) (canonical_error-eq r e h))

  pub verdict-loaded :
      (d : Device) (m : Message) (s : Machine)
      → s.cache.loaded ≡ true
      → command_error lib d s.cache m.fields ≡ none
      → verdict lib (arrival d m s) s.cache ≡ none
  unfolding validate
  verdict-loaded d m s loaded h =
      ap (λ c. command_error lib d c m.fields) (load_replay_cache-loaded s.stored s.cache loaded)
      ∙ h

  -- A command is performed once: a message that repeats the id or the nonce of an accepted one,
  -- with at most fifteen messages in between, is rejected and changes neither the lock nor support
  -- mode, whatever device state and clock it meets. From the first to the second the device takes
  -- these messages only and does not reboot, as neither the accepted command nor a message in between
  -- makes it do so; the ring is valid, and the stored entries have been loaded.
  pub performed_once :
      (d d' : Device) (t t' : Moment) (a b : Message) (between : List Post) (s : Machine)
      → IsRing s.cache
      → s.cache.loaded ≡ true
      → length between ≤ 15
      → StaysUp (post d t a ∷ between) s
      → command_error lib d s.cache a.fields ≡ none
      → ((names b.fields).0 ≡ (names a.fields).0) ⊎ ((names b.fields).1 ≡ (names a.fields).1)
      → let u = take_posts (post d t a ∷ between) s in
        let r = on_command_message lib flags nums json d' t' (some b) u in
        (e : Error) × (r.1 ≡ rejected e ∷ []) × (r.0.lock ≡ u.lock) × (r.0.support ≡ u.support)
  performed_once d d' t t' a b between s ring loaded few up accepted same =
      let u = take_posts (post d t a ∷ between) s in
      let later = arrivals between (take_post (post d t a) s) in
      let (reached, count) = post-cache d t a between s up in
      let never =
        handle_all-refuses lib (arrival d a s) (arrival d' b u) later s.cache ring loaded
          (omega (arith, count, few)) (verdict-loaded d a s loaded accepted) same in
      elim (Option-cases (verdict lib (arrival d' b u) u.cache)) [
        | inl passed ↦
            absurd (never (subst (λ c. verdict lib (arrival d' b u) c ≡ none) reached passed))
        | inr (e, refused) ↦
            let (lock, support, answer) = refused-quiet d' t' b u e refused in
            (e, answer, lock, support)
      ]
