-- ===== src/Command/Repeat.antt =====
-- Messages one after the other: each is validated, and remembered if it was accepted.
use forge_key.Prelude.{
  ◌≤◌, ◌≡◌, ◌≢◌, ◌⊎◌, inl, inr, refl, sym, ap, ◌∙◌, Bool, true, false, ◌||◌, Option, none, some,
  List, [], ◌∷◌, arith, All, length, Text, codes, is_empty, leb, Option-cases, Bool-cases, subst,
}
use forge_key.Json.{Document}
use forge_key.Command.Replay.{Cache, replay_seen, remember, load_replay_cache}
use forge_key.Command.Auth.{Libraries, Device, Error, field}
use forge_key.Command.Validate.{command_error, validate, remember_accepted, Result}
use forge_key.Command.Soundness.{IsAcceptable-tests, command_error_iff}
use forge_key.Command.Ring.{
  IsRing, IsStorable, remember_all, remember_storable, remember-IsRing, remember_all-IsRing,
  replay_seen-remember,
}

-- A message, with what the device and the flash hold when it comes.
pub record Arrival : Type 0 where
  pub device : Device
  pub stored : Option Text
  pub document : Document

-- The id and the nonce of a message.
abbrev pub names : Document → Text × Text
names doc = (field (codes "command_id") doc, field (codes "nonce") doc)

storable :
    (cmd issued expires actor : Bool) (id nonce : Text)
    → (cmd || is_empty id || issued || expires || is_empty nonce || actor) ≡ false
    → (leb 72 (length id) || leb 72 (length nonce)) ≡ false
    → IsStorable (id, nonce)
storable cmd issued expires actor id nonce h k = ground arith

pub load_replay_cache-loaded :
    (stored : Option Text) (cache : Cache)
    → cache.loaded ≡ true
    → load_replay_cache stored cache ≡ cache
unfolding load_replay_cache
load_replay_cache-loaded stored cache loaded = rw loaded refl

remember_accepted-remember :
    (r : Result) (cache : Cache)
    → r.error ≡ none
    → IsStorable (r.command_id, r.nonce)
    → (remember_accepted r cache).0 ≡ (remember r.command_id r.nonce cache).0
unfolding remember_accepted
remember_accepted-remember r cache h st =
    let (named, _, fresh, _) = st in
    elim (Bool-cases (remember r.command_id r.nonce cache).1) [
      | inl stores ↦ rw (h, named, fresh, stores, remember_accepted) refl
      | inr keeps ↦ rw (h, named, fresh, keeps, remember_accepted) refl
    ]

still_loaded :
    (both : Text × Text) (cache : Cache)
    → cache.loaded ≡ true
    → IsStorable both
    → (remember both.0 both.1 cache).0.loaded ≡ true
still_loaded both cache loaded st =
    ap (λ (c : Cache). c.loaded) (remember_storable both.0 both.1 cache st) ∙ loaded

module _ (lib : Libraries) where
  -- The error of a message, and the cache after it.
  abbrev pub verdict : Arrival → Cache → Option Error
  verdict a cache = (validate lib a.device a.stored cache a.document).1.error

  unfoldable pub handle : Arrival → Cache → Cache
  unfolding validate remember_accepted
  handle a cache =
      let (loaded, result) = validate lib a.device a.stored cache a.document in
      (remember_accepted result loaded).0

  unfoldable pub handle_all : List Arrival → Cache → Cache
  handle_all [] cache = cache
  handle_all (a ∷ later) cache = handle_all later (handle a cache)

  pub acceptable-IsStorable :
      (d : Device) (cache : Cache) (doc : Document)
      → command_error lib d cache doc ≡ none
      → IsStorable (names doc)
  acceptable-IsStorable d cache doc h =
      let (issued, expires, ok) = (command_error_iff lib d cache doc).0 h in
      let (complete, _, short, _) = IsAcceptable-tests lib d cache doc issued expires ok in
      storable (is_empty (field (codes "cmd") doc)) (is_empty (field (codes "issued_at") doc))
        (is_empty (field (codes "expires_at") doc)) (is_empty (field (codes "actor") doc))
        (names doc).0 (names doc).1 complete short

  -- Where the stored entries are loaded, the validation takes the cache as it is.
  judged : Arrival → Cache → Result
  judged a cache = record {
    error = command_error lib a.device cache a.document;
    command_id = (names a.document).0;
    nonce = (names a.document).1;
    actor = field (codes "actor") a.document;
  }

  handle-judged :
      (a : Arrival) (cache : Cache)
      → cache.loaded ≡ true
      → (verdict a cache ≡ command_error lib a.device cache a.document)
        × (handle a cache ≡ (remember_accepted (judged a cache) cache).0)
  unfolding validate handle judged
  handle-judged a cache loaded =
      let same = load_replay_cache-loaded a.stored cache loaded in
      (
        ap (λ c. command_error lib a.device c a.document) same,
        ap (λ c. (remember_accepted (judged a c) c).0) same,
      )

  handle-accepted :
      (a : Arrival) (cache : Cache)
      → cache.loaded ≡ true
      → verdict a cache ≡ none
      → IsStorable (names a.document)
        × (handle a cache ≡ (remember (names a.document).0 (names a.document).1 cache).0)
  unfolding judged
  handle-accepted a cache loaded h =
      let (verdict_same, same) = handle-judged a cache loaded in
      let passed = sym verdict_same ∙ h in
      let st = acceptable-IsStorable a.device cache a.document passed in
      (st, same ∙ remember_accepted-remember (judged a cache) cache passed st)

  handle-rejected :
      (a : Arrival) (cache : Cache) (e : Error)
      → cache.loaded ≡ true
      → verdict a cache ≡ some e
      → handle a cache ≡ cache
  unfolding remember_accepted judged
  handle-rejected a cache e loaded h =
      let (verdict_same, same) = handle-judged a cache loaded in
      let refused = sym verdict_same ∙ h in same ∙ rw (refused, remember_accepted) refl

  -- The messages that were accepted among some, and what the cache has of them.
  abbrev Remembered : List Arrival → Cache → Type 0
  Remembered later cache =
      (es : List (Text × Text)) × All IsStorable es
      × (length es ≤ length later)
      × (handle_all later cache ≡ remember_all es cache)
      × ((handle_all later cache).loaded ≡ true)

  handle_all-Remembered :
      (later : List Arrival) (cache : Cache) → cache.loaded ≡ true → Remembered later cache
  unfolding handle_all remember_all
  handle_all-Remembered [] cache loaded = ([], tt, omega arith, refl, loaded)
  handle_all-Remembered (a ∷ later) cache loaded = elim (Option-cases (verdict a cache)) [
    | inr (e, refused) ↦
        let same = handle-rejected a cache e loaded refused in
        let (es, st, few, eq, l) = handle_all-Remembered later cache loaded in
        (
          es,
          st,
          omega (arith, few),
          ap (handle_all later) same ∙ eq,
          ap (λ c. (handle_all later c).loaded) same ∙ l,
        )
    | inl accepted ↦
        let (st, same) = handle-accepted a cache loaded accepted in
        let next = (remember (names a.document).0 (names a.document).1 cache).0 in
        let still : next.loaded ≡ true = still_loaded (names a.document) cache loaded st in
        let (es, sts, few, eq, l) = handle_all-Remembered later next still in
        (
          names a.document ∷ es,
          (st, sts),
          omega (arith, few),
          ap (handle_all later) same ∙ eq,
          ap (λ c. (handle_all later c).loaded) same ∙ l,
        )
  ]

  pub handle-loaded :
      (a : Arrival) (cache : Cache) → cache.loaded ≡ true → (handle a cache).loaded ≡ true
  unfolding handle_all
  handle-loaded a cache loaded =
      let (_, _, _, _, still) = handle_all-Remembered (a ∷ []) cache loaded in still

  -- After an accepted message and at most fifteen more, its id and its nonce are recognised.
  pub handle_all-seen :
      (a : Arrival) (later : List Arrival) (cache : Cache)
      → IsRing cache
      → cache.loaded ≡ true
      → length later ≤ 15
      → verdict a cache ≡ none
      → let last = handle_all later (handle a cache) in
        IsRing last
        × (last.loaded ≡ true)
        × ((other : Text)
            → (replay_seen (names a.document).0 other last ≡ true)
              × (replay_seen other (names a.document).1 last ≡ true))
  handle_all-seen a later cache ring loaded few accepted =
      let (id, nonce) = names a.document in
      let (st, first) = handle-accepted a cache loaded accepted in
      let after = (remember id nonce cache).0 in
      let still : after.loaded ≡ true = still_loaded (names a.document) cache loaded st in
      let (es, sts, count, eq, l) = handle_all-Remembered later after still in
      let here : handle_all later (handle a cache) ≡ remember_all es after =
        ap (handle_all later) first ∙ eq in
      (
        subst IsRing (sym here)
            (remember_all-IsRing es after (remember-IsRing id nonce cache ring)),
        ap (λ c. (handle_all later c).loaded) first ∙ l,
        λ other.
            rw here (
              replay_seen-remember id nonce es cache other ring st sts (omega (arith, count, few))),
      )

  -- A cache that recognises its id or its nonce accepts no message.
  pub seen-refused :
      (b : Arrival) (cache : Cache) (id nonce : Text)
      → ((names b.document).0 ≡ id) ⊎ ((names b.document).1 ≡ nonce)
      → ((other : Text)
          → (replay_seen id other cache ≡ true) × (replay_seen other nonce cache ≡ true))
      → command_error lib b.device cache b.document ≢ none
  seen-refused b cache id nonce same seen clean =
      let (issued, expires, ok) = (command_error_iff lib b.device cache b.document).0 clean in
      let (_, _, _, fresh) = IsAcceptable-tests lib b.device cache b.document issued expires ok in
      let (id', nonce') = names b.document in
      elim same [
        | inl e ↦ let r = (seen nonce').0 in cc (r, e, fresh)
        | inr e ↦ let r = (seen id').1 in cc (r, e, fresh)
      ]

  -- No message is accepted that repeats the id or the nonce of a message accepted before it, with
  -- at most fifteen messages of any kind in between, whatever device state and clock it meets.
  -- The ring is valid, and the stored entries have been loaded.
  pub handle_all-refuses :
      (a b : Arrival) (later : List Arrival) (cache : Cache)
      → IsRing cache
      → cache.loaded ≡ true
      → length later ≤ 15
      → verdict a cache ≡ none
      → ((names b.document).0 ≡ (names a.document).0)
        ⊎ ((names b.document).1 ≡ (names a.document).1)
      → verdict b (handle_all later (handle a cache)) ≢ none
  handle_all-refuses a b later cache ring loaded few accepted same passed =
      let last = handle_all later (handle a cache) in
      let (_, last_loaded, seen) = handle_all-seen a later cache ring loaded few accepted in
      let clean = sym (handle-judged b last last_loaded).0 ∙ passed in
      seen-refused b last (names a.document).0 (names a.document).1 same seen clean
