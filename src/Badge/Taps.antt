-- ===== src/Badge/Taps.antt =====
-- One tap on the badge reader.
use forge_key.Prelude.{
  ℕ, ◌≡◌, ◌<◌, refl, ap, ◌∙◌, true, false, not, Option, none, some, List, [], ◌∷◌, All, arith, ltb,
  leb, ◌==◌, if_both, elapsed, Text,
}
use forge_key.Badge.Reader.{
  CardUid, BadgeReader, AccessRequest, CardPoll, same_uid, should_publish, record_published,
  take_card, tick, events,
}

abbrev pub IsHolding : CardUid → Option CardUid → Type 0
IsHolding card none = Unit
IsHolding card (some uid) = same_uid uid card ≡ true

-- The card was read, or nothing, less than two seconds after `since`.
abbrev pub IsHeld : CardUid → ℕ → CardPoll → Type 0
IsHeld card since p = IsHolding card p.read × (elapsed p.now since < 2000)

-- The last event was of this card at this time.
record IsLast (card : CardUid) (since : ℕ) (s : BadgeReader) : Type 0 where
  known : s.have_last ≡ true
  same : s.last_uid ≡ card
  time : s.last_publish_ms ≡ since

module _ (reader_id : Text) where
  abbrev IsQuiet : CardUid → ℕ → BadgeReader × Option AccessRequest → Type 0
  IsQuiet card since r = (r.1 ≡ none) × IsLast card since r.0

  not_again :
      (card uid : CardUid) (since now : ℕ) (s : BadgeReader)
      → IsLast card since s
      → same_uid uid card ≡ true
      → elapsed now since < 2000
      → should_publish uid now s ≡ false
  unfolding should_publish
  not_again card uid since now s last equal soon =
      let seen : same_uid uid s.last_uid ≡ true = ap (same_uid uid) last.same ∙ equal in
      let early : leb 2000 (elapsed now s.last_publish_ms) ≡ false =
        ground (arith, last.time, soon) in
      simp (last.known, seen) early

  read-IsQuiet :
      (card : CardUid) (since : ℕ) (p : CardPoll) (read : Option CardUid) (s : BadgeReader)
      → IsLast card since s
      → IsHolding card read
      → elapsed p.now since < 2000
      → IsQuiet card since (elim read [ none ↦ (s, none) | some uid ↦ take_card reader_id p uid s ])
  unfolding take_card
  read-IsQuiet card since p none s last held soon = (refl, last)
  read-IsQuiet card since p (some uid) s last held soon =
      if_both (IsQuiet card since) (uid.length == 0) (refl, last)
        (simp (not_again card uid since p.now s last held soon) (refl, last))

  tick-IsQuiet :
      (card : CardUid) (since : ℕ) (p : CardPoll) (s : BadgeReader)
      → IsLast card since s
      → IsHeld card since p
      → IsQuiet card since (tick reader_id p s)
  unfolding tick
  tick-IsQuiet card since p s last (held, soon) =
      let polled = record s { last_poll_ms = p.now } in
      if_both (IsQuiet card since) (not s.ready) (refl, last)
        (if_both (IsQuiet card since) (ltb (elapsed p.now s.last_poll_ms) 50) (refl, last)
          (read-IsQuiet card since p p.read polled
            (record { known = last.known; same = last.same; time = last.time }) held soon))

  held-silent :
      (card : CardUid) (since : ℕ) (ps : List CardPoll) (s : BadgeReader)
      → IsLast card since s
      → All (IsHeld card since) ps
      → events reader_id ps s ≡ []
  unfolding events
  held-silent card since [] s last held = refl
  held-silent card since (p ∷ ps) s last (first, held) =
      let (quiet, kept) = tick-IsQuiet card since p s last first in
      rw quiet (held-silent card since ps (tick reader_id p s).0 kept held)

  abbrev Publishes : AccessRequest → CardUid → ℕ → BadgeReader × Option AccessRequest → Type 0
  Publishes r card now t = t.1 ≡ some r → IsLast card now t.0

  read-Publishes :
      (r : AccessRequest) (card : CardUid) (p : CardPoll) (read : Option CardUid) (s : BadgeReader)
      → read ≡ some card
      → Publishes r card p.now
          (elim read [ none ↦ (s, none) | some uid ↦ take_card reader_id p uid s ])
  unfolding take_card record_published
  read-Publishes r card p none s found = λ e. cc
  read-Publishes r card p (some uid) s found =
      let P = Publishes r card p.now in
      if_both P (uid.length == 0) (λ e. cc)
        (if_both P (not (should_publish uid p.now s)) (λ e. cc)
          (λ e. record {
            known = refl;
            same = ap (λ (o : Option CardUid). elim o [ none ↦ uid | some u ↦ u ]) found;
            time = refl;
          }))

  tick-Publishes :
      (r : AccessRequest) (card : CardUid) (p : CardPoll) (s : BadgeReader)
      → p.read ≡ some card
      → Publishes r card p.now (tick reader_id p s)
  unfolding tick
  tick-Publishes r card p s found =
      let P = Publishes r card p.now in
      if_both P (not s.ready) (λ e. cc)
        (if_both P (ltb (elapsed p.now s.last_poll_ms) 50) (λ e. cc)
          (read-Publishes r card p p.read (record s { last_poll_ms = p.now }) found))

  -- One tap is one event: once a card was published, no tick within two seconds publishes anything,
  -- as long as that card is read or none.
  pub one_tap :
      (r : AccessRequest) (card : CardUid) (p : CardPoll) (ps : List CardPoll) (s : BadgeReader)
      → p.read ≡ some card
      → (tick reader_id p s).1 ≡ some r
      → All (IsHeld card p.now) ps
      → events reader_id (p ∷ ps) s ≡ r ∷ []
  unfolding events
  one_tap r card p ps s found taken held =
      let after = (tick reader_id p s).0 in
      rw taken
        (ap (◌∷◌ r) (held-silent card p.now ps after (tick-Publishes r card p s found taken) held))
