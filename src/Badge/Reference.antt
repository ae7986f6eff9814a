-- ===== src/Badge/Reference.antt =====
-- `BadgeDebouncer` of the host's contract tests (tests/host/test_protocol_contracts.py), which knows a
-- card by its text only, and the reader against it.
use forge_key.Prelude.{
  ℕ, ◌≡◌, ◌⊎◌, refl, ap, subst, inl, inr, Bool, true, false, not, Option, none, some, List, [], ◌∷◌,
  All, map, ltb, leb, ◌==◌, if◌then◌else◌, Text, text_eq, elapsed, Bool-cases,
}
use forge_key.Badge.Reader.{
  CardUid, BadgeReader, AccessRequest, CardPoll, initial, should_publish, record_published,
  take_card, tick, setup, published, events, format_uid_hex, debounce_ms, poll_interval_ms,
}
use forge_key.Badge.Hex.{IsCard, format_uid_hex-same_uid}

-- _last_uid and _last_ms
pub record Debouncer : Type 0 where
  pub last_uid : Option Text
  pub last_ms : ℕ

unfoldable pub no_card : Debouncer
no_card = record { last_uid = none; last_ms = 0 }

-- `should_publish`, its difference on the 32-bit clock.
unfoldable pub admits : Text → ℕ → Debouncer → Bool
admits uid now d = elim d.last_uid [
  | none ↦ true
  | some last ↦ if not (text_eq uid last) then true else leb debounce_ms (elapsed now d.last_ms)
]

-- The texts that it publishes, of the reads that it gets with their times.
unfoldable pub debounced : List (ℕ × Text) → Debouncer → List Text
unfolding admits
debounced [] d = []
debounced ((now, uid) ∷ reads) d =
    let later = debounced reads (record { last_uid = some uid; last_ms = now }) in
    let same = debounced reads d in if admits uid now d then uid ∷ later else same

abbrev of_read : ℕ → Option CardUid → List (ℕ × Text) → List (ℕ × Text)
of_read now none rest = rest
of_read now (some uid) rest = if uid.length == 0 then rest else (now, format_uid_hex uid) ∷ rest

-- The cards that are read by polls 50 ms or more apart.
unfoldable pub reads : ℕ → List CardPoll → List (ℕ × Text)
reads last_poll_ms [] = []
reads last_poll_ms (p ∷ ps) =
    let skipped = reads last_poll_ms ps in
    let polled = reads p.now ps in
    if ltb (elapsed p.now last_poll_ms) poll_interval_ms
    then skipped
    else of_read p.now p.read polled

abbrev pub IsRead : Option CardUid → Type 0
IsRead none = Unit
IsRead (some uid) = IsCard uid

-- The debouncer knows the last card of the reader by its text.
abbrev Knows : BadgeReader → Debouncer → Type 0
Knows s d =
    ((s.have_last ≡ false) × (d.last_uid ≡ none))
    ⊎ ((s.have_last ≡ true)
        × IsCard s.last_uid
        × (d.last_uid ≡ some (format_uid_hex s.last_uid))
        × (d.last_ms ≡ s.last_publish_ms))

admits-should_publish :
    (uid : CardUid) (now : ℕ) (s : BadgeReader) (d : Debouncer)
    → IsCard uid
    → Knows s d
    → admits (format_uid_hex uid) now d ≡ should_publish uid now s
unfolding admits should_publish
admits-should_publish uid now s d card (inl (nothing, unknown)) = rw (nothing, unknown) refl
admits-should_publish uid now s d card (inr (known, last_card, last, time)) =
    rw (known, last, time, format_uid_hex-same_uid uid s.last_uid card last_card) refl

abbrev credentials : List AccessRequest → List Text
credentials = map (λ r. r.credential_id)

module _ (reader_id : Text) where
  -- What follows a tick that ended with `r` is what the debouncer makes of the reads that are left.
  abbrev Agrees :
      List CardPoll → List (ℕ × Text) → BadgeReader × Option AccessRequest → Debouncer → Type 0
  Agrees ps rest r d = credentials (published r.1 (events reader_id ps r.0)) ≡ debounced rest d

  card-Agrees :
      (p : CardPoll) (ps : List CardPoll) (uid : CardUid) (s : BadgeReader) (d : Debouncer)
      → ((t : BadgeReader) (e : Debouncer)
          → t.ready ≡ true
          → t.last_poll_ms ≡ p.now
          → Knows t e
          → credentials (events reader_id ps t) ≡ debounced (reads p.now ps) e)
      → s.ready ≡ true
      → s.last_poll_ms ≡ p.now
      → Knows s d
      → IsCard uid
      → Agrees ps (of_read p.now (some uid) (reads p.now ps)) (take_card reader_id p uid s) d
  unfolding take_card debounced record_published
  card-Agrees p ps uid s d rest ready polled knows card =
      let same = admits-should_publish uid p.now s d card knows in
      elim (Bool-cases (uid.length == 0)) [
        | inl empty ↦ rw empty (rest s d ready polled knows)
        | inr full ↦ elim (Bool-cases (should_publish uid p.now s)) [
          | inl passes ↦
              let t = record_published uid p.now s in
              let e : Debouncer = record {
                last_uid = some (format_uid_hex uid);
                last_ms = p.now;
              } in
              rw (full, same, passes)
                (ap (◌∷◌ (format_uid_hex uid))
                  (rest t e ready polled (inr (refl, card, refl, refl))))
          | inr held ↦ rw (full, same, held) (rest s d ready polled knows)
        ]
      ]

  read-Agrees :
      (p : CardPoll) (ps : List CardPoll) (read : Option CardUid) (s : BadgeReader) (d : Debouncer)
      → ((t : BadgeReader) (e : Debouncer)
          → t.ready ≡ true
          → t.last_poll_ms ≡ p.now
          → Knows t e
          → credentials (events reader_id ps t) ≡ debounced (reads p.now ps) e)
      → s.ready ≡ true
      → s.last_poll_ms ≡ p.now
      → Knows s d
      → IsRead read
      → Agrees ps
          (of_read p.now read (reads p.now ps))
          (elim read [ none ↦ (s, none) | some uid ↦ take_card reader_id p uid s ])
          d
  read-Agrees p ps none s d rest ready polled knows card = rest s d ready polled knows
  read-Agrees p ps (some uid) s d rest ready polled knows card =
      card-Agrees p ps uid s d rest ready polled knows card

  -- The state after a poll.
  abbrev polled_at : ℕ → BadgeReader → BadgeReader
  polled_at now s = record s { last_poll_ms = now }

  polled_at-Knows :
      (now : ℕ) (s : BadgeReader) (d : Debouncer) → Knows s d → Knows (polled_at now s) d
  polled_at-Knows now s d (inl nothing) = inl nothing
  polled_at-Knows now s d (inr known) = inr known

  events-debounced :
      (ps : List CardPoll) (s : BadgeReader) (d : Debouncer)
      → s.ready ≡ true
      → Knows s d
      → All (λ p. IsRead p.read) ps
      → credentials (events reader_id ps s) ≡ debounced (reads s.last_poll_ms ps) d
  unfolding events tick reads debounced
  events-debounced [] s d ready knows cards = refl
  events-debounced (p ∷ ps) s d ready knows (card, cards) =
      let rest : (t : BadgeReader) (e : Debouncer)
          → t.ready ≡ true
          → t.last_poll_ms ≡ p.now
          → Knows t e
          → credentials (events reader_id ps t) ≡ debounced (reads p.now ps) e =
        λ t e r q k.
          subst (λ n. credentials (events reader_id ps t) ≡ debounced (reads n ps) e) q
            (events-debounced ps t e r k cards) in
      elim (Bool-cases (ltb (elapsed p.now s.last_poll_ms) 50)) [
        | inl early ↦ simp (ready, early) (events-debounced ps s d ready knows cards)
        | inr late ↦
            simp (ready, late)
              (read-Agrees p ps p.read (polled_at p.now s) d rest ready refl
                (polled_at-Knows p.now s d knows) card)
      ]

  -- After `setupFn` the reader publishes the cards that the debouncer of the contract tests lets
  -- through, which gets the texts of the cards that are polled 50 ms or more apart and knows nothing
  -- else of them. The reader hardware begins, and each UID has at most ten bytes.
  pub events-reference :
      (ps : List CardPoll)
      → All (λ p. IsRead p.read) ps
      → map (λ r. r.credential_id) (events reader_id ps (setup true initial))
        ≡ debounced (reads 0 ps) no_card
  unfolding setup initial no_card
  events-reference ps cards =
      events-debounced ps (setup true initial) no_card refl (inl (refl, refl)) cards
