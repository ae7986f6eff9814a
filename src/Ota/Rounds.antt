-- ===== src/Ota/Rounds.antt =====
-- The download loop ends, and what it hashes is what it writes.
use forge_key.Prelude.{
  ℕ, ◌+◌, ◌-◌, ◌*◌, ◌<◌, ◌≤◌, ◌≡◌, ◌≢◌, refl, true, false, List, [], ◌∷◌, ◌++◌, arith, ltb, ◌==◌,
  length, length-append, Text, is_empty, elapsed, u32, All, Bool-cases, inl, inr, ◌⊎◌, ◌∙◌, ltb→lt,
  subst, lt→ltb,
}
use forge_key.Ota.Download.{
  Stage, Poll, Download, Round, go_on, give_up, Progress, running, broken, complete, started, want,
  take_in, download_round, download,
}

-- The client delivers no more bytes than it is asked for, and where it is asked for some, some.
pub record IsDelivering (p : Poll) : Type 0 where
  pub fits : (n : ℕ) → length (p.read n) ≤ n
  pub delivers : (n : ℕ) → 0 < n → 0 < length (p.read n)

-- In each round the clock moves on, by one millisecond to 1000 seconds.
pub record IsPaced (clock : ℕ) (p : Poll) : Type 0 where
  pub passed : ℕ
  pub positive : 0 < passed
  pub bounded : passed ≤ 1000000
  pub reads : p.now ≡ u32 (clock + passed)

abbrev pub ArePaced : ℕ → List Poll → Type 0
ArePaced clock [] = Unit
ArePaced clock (p ∷ ps) = IsPaced clock p × ArePaced p.now ps

-- The rounds that can still come: each received byte allows 20001 ms of silence.
abbrev rounds_left : ℕ → ℕ → Download → ℕ
rounds_left total clock d = (total - d.received) * 20002 + (20001 - elapsed clock d.last_data_ms)

record IsUnderWay (total clock : ℕ) (d : Download) : Type 0 where
  pub within : d.received ≤ total
  pub recent : elapsed clock d.last_data_ms ≤ 20000
  pub clock_word : clock < 4294967296
  pub last_word : d.last_data_ms < 4294967296

take_in_fields :
    (total now : ℕ) (bytes : Text) (d : Download)
    → ((take_in total now bytes d).received ≡ d.received + length bytes)
      × ((take_in total now bytes d).last_data_ms ≡ now)
      × ((take_in total now bytes d).written ≡ d.written ++ bytes)
      × ((take_in total now bytes d).hashed ≡ d.hashed ++ bytes)
unfolding take_in
take_in_fields total now bytes d = ground arith

want_bounds :
    (total available received : ℕ)
    → received < total
    → available ≢ 0
    → (0 < want total available received) × (received + want total available received ≤ total)
unfolding want
want_bounds total available received h k = ground arith

nonempty : (t : Text) → is_empty t ≡ false → 0 < length t
nonempty [] h = cc
nonempty (c ∷ cs) h = omega arith

is_empty-zero : (t : Text) → is_empty t ≡ true → length t ≡ 0
is_empty-zero [] h = refl
is_empty-zero (c ∷ cs) h = cc

-- A round that goes on keeps the bounds and uses up a round.
round-IsUnderWay :
    (total clock : ℕ) (p : Poll) (d d' : Download)
    → IsUnderWay total clock d
    → d.received < total
    → IsDelivering p
    → IsPaced clock p
    → download_round total p d ≡ go_on d'
    → IsUnderWay total p.now d' × (rounds_left total p.now d' < rounds_left total clock d)
unfolding download_round
round-IsUnderWay total clock p d d' w h del pace e =
    let bytes = p.read (want total p.available d.received) in
    elim (Bool-cases (p.available == 0)) [
      | inl idle ↦ ground arith
      | inr served ↦
          let asked = want total p.available d.received in
          ground (
            arith,
            want_bounds total p.available d.received h,
            take_in_fields total p.now bytes d,
            del.fits asked,
            del.delivers asked,
            is_empty-zero bytes,
          )
    ]

abbrev pub Ends : Progress → Type 0
Ends (running d) = ⊥
Ends (broken s d) = Unit
Ends (complete d) = Unit

pub Round-cases : (r : Round) → ((s : Stage) × (r ≡ give_up s)) ⊎ ((d : Download) × (r ≡ go_on d))
Round-cases (give_up s) = inl (s, refl)
Round-cases (go_on d) = inr (d, refl)

download-Ends_under_way :
    (total clock : ℕ) (ps : List Poll) (d : Download)
    → IsUnderWay total clock d
    → All IsDelivering ps
    → ArePaced clock ps
    → rounds_left total clock d ≤ length ps
    → Ends (download total ps d)
unfolding download
download-Ends_under_way total clock [] d w del pace h = absurd (omega (arith, w.recent))
download-Ends_under_way total clock (p ∷ ps) d w del pace h =
    elim (Bool-cases (ltb d.received total)) [
      | inr full ↦ rw (full, download) tt
      | inl more ↦ elim (Round-cases (download_round total p d)) [
        | inl (s, e) ↦ rw (more, e, download) tt
        | inr (d', e) ↦
            let (w', less) =
              round-IsUnderWay total clock p d d' w (ltb→lt _ _ more) del.0 pace.0 e in
            rw (more, e, download)
              (download-Ends_under_way total p.now ps d' w' del.1 pace.1 (omega (arith, less, h)))
      ]
    ]

-- The download loop ends, by completion or by giving up, within 20002 rounds for each byte of the
-- announced length and 20001 more, whatever the client reports: provided that a read for which bytes
-- are available yields at least one, and that the clock moves on in each round, by at most 1000 s.
pub download-Ends :
    (total now : ℕ) (ps : List Poll)
    → now < 4294967296
    → All IsDelivering ps
    → ArePaced now ps
    → total * 20002 + 20001 ≤ length ps
    → Ends (download total ps (started now))
download-Ends total now ps word del pace h =
    download-Ends_under_way total now ps (started now) (ground arith) del pace (omega (arith, h))

-- A client that keeps reporting bytes and whose reads fail.
pub record IsStalled (p : Poll) : Type 0 where
  pub reports : p.available ≢ 0
  pub fails : (n : ℕ) → p.read n ≡ []

-- Reads that fail while bytes are reported as available never time out: whatever the clock shows and
-- however many rounds pass, the loop of a download that lacks bytes goes on as it was.
pub stalled-running :
    (total : ℕ) (ps : List Poll) (d : Download)
    → d.received < total
    → All IsStalled ps
    → download total ps d ≡ running d
unfolding download download_round
stalled-running total [] d h s = rw (lt→ltb _ _ h) refl
stalled-running total (p ∷ ps) d h s = ground (
  arith,
  s.0.reports,
  s.0.fails (want total p.available d.received),
  stalled-running total ps d h s.1,
)

-- What the loop has taken in so far.
record IsAccounted (total : ℕ) (d : Download) : Type 0 where
  pub counted : length d.written ≡ d.received
  pub hashed_all : d.hashed ≡ d.written
  pub not_over : d.received ≤ total

abbrev pub Fits : Poll → Type 0
Fits p = (n : ℕ) → length (p.read n) ≤ n

round-IsAccounted :
    (total : ℕ) (p : Poll) (d d' : Download)
    → IsAccounted total d
    → d.received < total
    → Fits p
    → download_round total p d ≡ go_on d'
    → IsAccounted total d'
unfolding download_round
round-IsAccounted total p d d' a h fits e =
    let asked = want total p.available d.received in
    let bytes = p.read asked in
    ground (
      arith,
      want_bounds total p.available d.received h,
      take_in_fields total p.now bytes d,
      fits asked,
      length-append d.written bytes,
      a.hashed_all,
      a.counted,
    )

download-IsAccounted :
    (total : ℕ) (ps : List Poll) (d d' : Download)
    → IsAccounted total d
    → All Fits ps
    → download total ps d ≡ complete d'
    → IsAccounted total d' × (d'.received ≡ total)
unfolding download
download-IsAccounted total [] d d' a fits e = ground arith
download-IsAccounted total (p ∷ ps) d d' a fits e = elim (Bool-cases (ltb d.received total)) [
  | inr full ↦
      let same : d ≡ d' = cc (rw (full, download) at e) in
      subst (λ x. IsAccounted total x × (x.received ≡ total)) same (a, ground arith)
  | inl more ↦ elim (Round-cases (download_round total p d)) [
    | inl (s, f) ↦ cc (rw (more, f, download) at e)
    | inr (d'', f) ↦
        download-IsAccounted total ps d'' d'
          (round-IsAccounted total p d d'' a (ltb→lt _ _ more) fits.0 f) fits.1
          (rw (more, f, download) at e)
  ]
]

-- A completed download has written exactly the announced number of bytes, and has hashed just the
-- bytes that it wrote, in their order: provided that no read yields more bytes than it was asked for.
pub download_complete :
    (total now : ℕ) (ps : List Poll) (d : Download)
    → All Fits ps
    → download total ps (started now) ≡ complete d
    → (length d.written ≡ total) × (d.received ≡ total) × (d.hashed ≡ d.written)
download_complete total now ps d fits e =
    let start : IsAccounted total (started now) = record {
      counted = refl;
      hashed_all = refl;
      not_over = omega arith;
    } in
    let (a, r) = download-IsAccounted total ps (started now) d start fits e in
    (a.counted ∙ r, r, a.hashed_all)
