-- ===== src/Main/Reboot.antt =====
-- A power cut after messages on the command topic: the boot reads the cache from flash.
use forge_key.Prelude.{
  ◌≤◌, ◌<◌, ◌≡◌, ◌⊎◌, refl, sym, ap, ◌∙◌, subst, true, Option, none, some, List, [], ◌∷◌, All,
  arith, length, Text, Option-cases, inl, inr, codes, ◌≢◌, ap₂,
}
use forge_key.Json.{Conversions}
use forge_key.Command.Auth.{Libraries, Device, Error, field}
use forge_key.Command.Replay
use forge_key.Command.Replay.{Cache, remember, replay_seen, load_replay_cache}
use forge_key.Command.Ring.{IsRing, IsStorable}
use forge_key.Command.Stored.{IsPlain, entries_of, stored_text, replay_seen-load_replay_cache}
use forge_key.Command.Validate.{Result, validate, command_error, remember_accepted}
use forge_key.Command.Repeat.{
  names, verdict, handle-loaded, handle_all-seen, seen-refused, acceptable-IsStorable,
  load_replay_cache-loaded,
}
use forge_key.Main.Indicator.{Message, Numbers}
use forge_key.Main.Commands.{
  Flags, rejected, Machine, Moment, remembered, answer, on_command_message,
}
use forge_key.Main.Once.{
  Post, post, StaysUp, take_post, take_post-up, post-cache, take_posts, arrival, arrivals,
  perform-Keeps, on_command_message-cache, refused-quiet, verdict-loaded,
}

-- The flash holds the text of the cache.
pub record IsInStep (s : Machine) : Type 0 where
  pub loaded : s.cache.loaded ≡ true
  pub in_step : s.stored ≡ some (stored_text s.cache)

-- An accepted message is written to flash.
remember_accepted-text :
    (r : Result) (cache : Cache)
    → r.error ≡ none
    → IsStorable (r.command_id, r.nonce)
    → (remember_accepted r cache).1 ≡ some (stored_text (remember_accepted r cache).0)
unfolding remember_accepted remember
remember_accepted-text r cache accepted fits = ground (arith, accepted, fits)

remembered-text :
    (r : Result) (s : Machine)
    → r.error ≡ none
    → IsStorable (r.command_id, r.nonce)
    → (remembered r s).stored ≡ some (stored_text (remembered r s).cache)
unfolding remembered
remembered-text r s accepted fits =
    ap (λ (o : Option Text). elim o [ none ↦ s.stored | some t ↦ some t ])
      (remember_accepted-text r s.cache accepted fits)

module _ (lib : Libraries) (flags : Flags) (nums : Numbers) (json : Conversions) where
  -- A cache recognises an id and a nonce, with whatever other value beside.
  abbrev Knows : Text → Text → Cache → Type 0
  Knows id nonce c =
      (other : Text) → (replay_seen id other c ≡ true) × (replay_seen other nonce c ≡ true)

  abbrev IsStored : Machine → Type 0
  IsStored s = s.stored ≡ some (stored_text s.cache)

  answer-IsStored :
      (d : Device) (t : Moment) (m : Message) (r : Result) (s : Machine)
      → r.error ≡ none
      → IsStorable (r.command_id, r.nonce)
      → IsStored (answer lib flags nums json d t m r s none).0
  unfolding answer
  answer-IsStored d t m r s accepted fits =
      let (cache, stored) =
        perform-Keeps lib flags nums json d t (field (codes "cmd") m.fields) m r.actor
          (remembered r s) in
      stored ∙ remembered-text r s accepted fits ∙ ap (λ c. some (stored_text c)) (sym cache)

  -- The result of the validation of a message.
  abbrev judged : Device → Message → Machine → Result
  judged d m s = (validate lib d s.stored s.cache m.fields).1

  abbrev loaded_machine : Machine → Machine
  loaded_machine s = record s { cache = load_replay_cache s.stored s.cache }

  answered-IsStored :
      (d : Device) (t : Moment) (m : Message) (s : Machine) (o : Option Error)
      → IsInStep s
      → command_error lib d s.cache m.fields ≡ o
      → (judged d m s).error ≡ o
      → IsStored (answer lib flags nums json d t m (judged d m s) (loaded_machine s) o).0
  unfolding validate answer
  answered-IsStored d t m s none step accepted same =
      answer-IsStored d t m (judged d m s) (loaded_machine s) same
        (acceptable-IsStorable lib d s.cache m.fields accepted)
  answered-IsStored d t m s (some e) step refused same =
      step.in_step
      ∙ ap (λ c. some (stored_text c)) (sym (load_replay_cache-loaded s.stored s.cache step.loaded))

  message-IsInStep :
      (d : Device) (t : Moment) (m : Message) (s : Machine)
      → s.cache.loaded ≡ true
      → IsStored (on_command_message lib flags nums json d t (some m) s).0
      → IsInStep (on_command_message lib flags nums json d t (some m) s).0
  message-IsInStep d t m s loaded stored = record {
    loaded =
        ap (λ (c : Cache). c.loaded) (on_command_message-cache lib flags nums json d t m s)
        ∙ handle-loaded lib (arrival lib flags nums json d m s) s.cache loaded;
    in_step = stored;
  }

  message-IsStored :
      (d : Device) (t : Moment) (m : Message) (s : Machine)
      → IsInStep s
      → IsStored (on_command_message lib flags nums json d t (some m) s).0
  unfolding on_command_message validate
  message-IsStored d t m s step =
      let same = load_replay_cache-loaded s.stored s.cache step.loaded in
      answered-IsStored d t m s (judged d m s).error step
        (sym (ap (λ c. command_error lib d c m.fields) same)) refl

  accepted-IsStored :
      (d : Device) (t : Moment) (m : Message) (s : Machine)
      → s.cache.loaded ≡ true
      → command_error lib d s.cache m.fields ≡ none
      → IsStored (on_command_message lib flags nums json d t (some m) s).0
  unfolding on_command_message validate
  accepted-IsStored d t m s loaded accepted =
      let error : (judged d m s).error ≡ none =
        verdict-loaded lib flags nums json d m s loaded accepted in
      subst (λ o. IsStored (answer lib flags nums json d t m (judged d m s) (loaded_machine s) o).0)
        (sym error)
        (answer-IsStored d t m (judged d m s) (loaded_machine s) error
          (acceptable-IsStorable lib d s.cache m.fields accepted))

  post-IsInStep :
      (d : Device) (t : Moment) (message : Option Message) (s : Machine)
      → IsInStep s
      → IsInStep (on_command_message lib flags nums json d t message s).0
  post-IsInStep d t none s step = unfold on_command_message in step
  post-IsInStep d t (some m) s step =
      message-IsInStep d t m s step.loaded (message-IsStored d t m s step)

  take_posts-IsInStep :
      (ps : List Post) (s : Machine)
      → StaysUp lib flags nums json ps s
      → IsInStep s
      → IsInStep (take_posts lib flags nums json ps s)
  unfolding take_posts
  take_posts-IsInStep [] s up step = step
  take_posts-IsInStep (p ∷ ps) s up step =
      take_posts-IsInStep ps (take_post lib flags nums json p s) up.1 (
        subst IsInStep (sym (take_post-up lib flags nums json p s up.0))
          (post-IsInStep p.device p.moment p.message s step))

  accepted-IsInStep :
      (d : Device) (t : Moment) (a : Message) (ps : List Post) (s : Machine)
      → s.cache.loaded ≡ true
      → command_error lib d s.cache a.fields ≡ none
      → StaysUp lib flags nums json (post d t a ∷ ps) s
      → IsInStep (take_posts lib flags nums json (post d t a ∷ ps) s)
  unfolding take_posts
  accepted-IsInStep d t a ps s loaded accepted up =
      take_posts-IsInStep ps (take_post lib flags nums json (post d t a) s) up.1 (
        subst IsInStep (sym (take_post-up lib flags nums json (post d t a) s up.0))
          (message-IsInStep d t a s loaded (accepted-IsStored d t a s loaded accepted)))

  -- What the boot accepts, by the cache that it reads.
  reboot-seen :
      (d : Device) (m : Message) (u w : Machine) (id nonce : Text)
      → IsRing u.cache
      → u.stored ≡ some (stored_text u.cache)
      → All IsPlain (entries_of u.cache)
      → length (stored_text u.cache) < 1024
      → w.cache ≡ Replay.initial
      → w.stored ≡ u.stored
      → ((names m.fields).0 ≡ id) ⊎ ((names m.fields).1 ≡ nonce)
      → Knows id nonce u.cache
      → verdict lib (arrival lib flags nums json d m w) w.cache ≢ none
  unfolding validate
  reboot-seen d m u w id nonce ring in_step plain short booted kept same seen =
      let read = load_replay_cache (some (stored_text u.cache)) Replay.initial in
      let a = arrival lib flags nums json d m w in
      let loads : load_replay_cache w.stored w.cache ≡ read =
        ap₂ load_replay_cache (kept ∙ in_step) booted in
      let knows : Knows id nonce read = λ other. (
        (replay_seen-load_replay_cache id other u.cache ring plain short).1 ∙ (seen other).0,
        (replay_seen-load_replay_cache other nonce u.cache ring plain short).1 ∙ (seen other).1,
      ) in
      λ passed.
        seen-refused lib a read id nonce same knows
          (ap (λ c. command_error lib d c m.fields) (sym loads) ∙ passed)

  -- A command is performed once, also across a power cut: once it was accepted, and at most fifteen
  -- more messages came, a message with its id or its nonce that comes after a power cut is rejected
  -- and changes neither the lock nor support mode. Up to that power cut the device does not reboot, as
  -- neither the accepted command nor one of those messages makes it do so; the ring was valid and the
  -- stored entries had been loaded; the flash keeps its text through the power cut; no id in the cache
  -- holds a comma, no id and no nonce a semicolon; and their text is shorter than 1024 bytes.
  pub performed_once_across_reboot :
      (d d' : Device) (t t' : Moment) (a b : Message) (between : List Post) (s w : Machine)
      → IsRing s.cache
      → s.cache.loaded ≡ true
      → length between ≤ 15
      → StaysUp lib flags nums json (post d t a ∷ between) s
      → command_error lib d s.cache a.fields ≡ none
      → ((names b.fields).0 ≡ (names a.fields).0) ⊎ ((names b.fields).1 ≡ (names a.fields).1)
      → let u = take_posts lib flags nums json (post d t a ∷ between) s in
        let r = on_command_message lib flags nums json d' t' (some b) w in
        All IsPlain (entries_of u.cache)
        → length (stored_text u.cache) < 1024
        → w.cache ≡ Replay.initial
        → w.stored ≡ u.stored
        → (e : Error) × (r.1 ≡ rejected e ∷ []) × (r.0.lock ≡ w.lock) × (r.0.support ≡ w.support)
  performed_once_across_reboot d d' t t' a b between s w ring loaded few up accepted same plain
        short cut kept =
      let u = take_posts lib flags nums json (post d t a ∷ between) s in
      let arrived = arrival lib flags nums json d a s in
      let later =
        arrivals lib flags nums json between (take_post lib flags nums json (post d t a) s) in
      let step = accepted-IsInStep d t a between s loaded accepted up in
      let (reached, count) = post-cache lib flags nums json d t a between s up in
      let (valid, _, seen) =
        handle_all-seen lib arrived later s.cache ring loaded (omega (arith, count, few))
          (verdict-loaded lib flags nums json d a s loaded accepted) in
      let known : Knows (names a.fields).0 (names a.fields).1 u.cache = λ other. (
        ap (replay_seen (names a.fields).0 other) reached ∙ (seen other).0,
        ap (replay_seen other (names a.fields).1) reached ∙ (seen other).1,
      ) in
      let never =
        reboot-seen d' b u w (names a.fields).0 (names a.fields).1
          (subst IsRing (sym reached) valid) step.in_step plain short cut kept same known in
      elim (Option-cases (verdict lib (arrival lib flags nums json d' b w) w.cache)) [
        | inl passed ↦ absurd (never passed)
        | inr (e, refused) ↦
            let (lock, support, answer) = refused-quiet lib flags nums json d' t' b w e refused in
            (e, answer, lock, support)
      ]
