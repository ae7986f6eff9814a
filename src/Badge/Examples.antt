-- ===== src/Badge/Examples.antt =====
-- A card of five bytes that is held on the reader.
use forge_key.Prelude.{◌≡◌, refl, true, none, some, [], ◌∷◌, map, arith, codes, ℕ, text_eq}
use forge_key.Badge.Reader.{
  CardUid, CardPoll, BadgeReader, events, tick, take_card, initial, setup, access_request,
  should_publish, same_uid,
}
use forge_key.Badge.Reference.{events-reference, debounced, reads, no_card}
use forge_key.Badge.Hex.{IsCard}
use forge_key.Badge.Taps.{one_tap}

abbrev card : CardUid
card = record { bytes = 0x04 ∷ 0xa1 ∷ 0xb2 ∷ 0xc3 ∷ 0xd4 ∷ 0 ∷ 0 ∷ 0 ∷ 0 ∷ 0 ∷ []; length = 5 }

abbrev at_time : ℕ → CardPoll
at_time now = record { now = now; read = some card; epoch = none; random_high = 1; random_low = 2 }

abbrev reader : BadgeReader
reader = setup true initial

events-reference_example :
    map
      (λ r. r.credential_id)
      (events (codes "main") (at_time 60 ∷ at_time 120 ∷ at_time 2100 ∷ []) reader)
    ≡ debounced (reads 0 (at_time 60 ∷ at_time 120 ∷ at_time 2100 ∷ [])) no_card
events-reference_example =
    let whole : IsCard card = record {
      whole = refl;
      short = omega arith;
      bytes_small = (
        omega arith,
        (
          omega arith,
          (
            omega arith,
            (
              omega arith,
              (
                omega arith,
                (omega arith, (omega arith, (omega arith, (omega arith, (omega arith, tt))))),
              ),
            ),
          ),
        ),
      );
    } in
    events-reference (codes "main") (at_time 60 ∷ at_time 120 ∷ at_time 2100 ∷ [])
      (whole, (whole, (whole, tt)))

one_tap_example :
    events (codes "main") (at_time 60 ∷ at_time 120 ∷ []) reader
    ≡ access_request (codes "main") (at_time 60) card ∷ []
unfolding tick take_card should_publish same_uid initial setup text_eq
one_tap_example =
    one_tap (codes "main") (access_request (codes "main") (at_time 60) card) card (at_time 60)
      (at_time 120 ∷ []) reader refl refl ((refl, omega arith), tt)
