-- ===== src/Ota/Tally.antt =====
-- The effects of an update, counted, and those of the download loop.
use forge_key.Prelude.{
  ℕ, suc, ◌+◌, ◌==◌, ◌≡◌, refl, Bool, true, false, not, ◌&&◌, List, [], ◌∷◌, ◌++◌, arith,
  if◌then◌else◌, ltb, is_empty, All, All-append, Bool-cases, if_both, subst, sym, ap, ◌∙◌, leb,
  elapsed, ◌*◌, ◌/◌, inl, inr,
}
use forge_key.Ota.Download.{
  Effect, Notice, notify, mark_healthy, watchdog_suspend, watchdog_resume, update_abort, update_end,
  restart, store_versions, downloading, want, Poll, Download, Round, Progress, running, broken,
  complete, download, go_on, give_up, take_in, report, download_round, update_begin,
}
use forge_key.Ota.Rounds.{Round-cases}

-- How often an effect occurs.
abbrev pub count : (Effect → Bool) → List Effect → ℕ
count p [] = 0
count p (e ∷ es) = if p e then suc (count p es) else count p es

abbrev pub is_suspend : Effect → Bool
is_suspend watchdog_suspend = true
is_suspend _ = false

abbrev pub is_resume : Effect → Bool
is_resume watchdog_resume = true
is_resume _ = false

-- The end of a flash update, by an abort or by its completion.
abbrev pub is_close : Effect → Bool
is_close update_abort = true
is_close update_end = true
is_close _ = false

abbrev pub is_begin : Effect → Bool
is_begin (update_begin size) = true
is_begin _ = false

-- What only an installation does.
abbrev pub is_install : Effect → Bool
is_install (store_versions a b) = true
is_install restart = true
is_install _ = false

count-append :
    (p : Effect → Bool) (xs ys : List Effect) → count p (xs ++ ys) ≡ count p xs + count p ys
count-append p [] ys = omega arith
count-append p (x ∷ xs) ys = ground (arith, count-append p xs ys)

-- The effects of the download loop.
pub data IsQuiet : Effect → Type 0 where
  said : (n : Notice) → IsQuiet (notify n)
  marked : IsQuiet mark_healthy

-- The five counts of a log.
pub record Tally (es : List Effect) (began opened closed resumed : ℕ) : Type 0 where
  pub begins : count is_begin es ≡ began
  pub opens : count is_suspend es ≡ opened
  pub closes : count is_close es ≡ closed
  pub resumes : count is_resume es ≡ resumed
  pub installs : count is_install es ≡ 0

-- The counts of a log as they are.
pub counted :
    (es : List Effect)
    → count is_install es ≡ 0
    → Tally es (count is_begin es) (count is_suspend es) (count is_close es) (count is_resume es)
counted es h = record { begins = refl; opens = refl; closes = refl; resumes = refl; installs = h }

pub quiet-Tally : (es : List Effect) → All IsQuiet es → Tally es 0 0 0 0
quiet-Tally [] h = counted [] refl
quiet-Tally (_ ∷ es) (said n, h) =
    let t = quiet-Tally es h in
    record {
      begins = t.begins;
      opens = t.opens;
      closes = t.closes;
      resumes = t.resumes;
      installs = t.installs;
    }
quiet-Tally (_ ∷ es) (marked, h) =
    let t = quiet-Tally es h in
    record {
      begins = t.begins;
      opens = t.opens;
      closes = t.closes;
      resumes = t.resumes;
      installs = t.installs;
    }

pub Tally-append :
    (xs ys : List Effect) (o a b c o' a' b' c' : ℕ)
    → Tally xs o a b c
    → Tally ys o' a' b' c'
    → Tally (xs ++ ys) (o + o') (a + a') (b + b') (c + c')
Tally-append xs ys o a b c o' a' b' c' s t = record {
  begins = omega (arith, count-append is_begin xs ys, s.begins, t.begins);
  opens = omega (arith, count-append is_suspend xs ys, s.opens, t.opens);
  closes = omega (arith, count-append is_close xs ys, s.closes, t.closes);
  resumes = omega (arith, count-append is_resume xs ys, s.resumes, t.resumes);
  installs = omega (arith, count-append is_install xs ys, s.installs, t.installs);
}

say : (e : Effect) (es : List Effect) → All IsQuiet es → IsQuiet e → All IsQuiet (es ++ e ∷ [])
say e es h q = All-append IsQuiet es (e ∷ []) h (q, tt)

report-IsQuiet : (total : ℕ) (d : Download) → All IsQuiet d.log → All IsQuiet (report total d).log
unfolding report
report-IsQuiet total d h =
    let pct = d.received * 100 / total in
    if_both (λ (x : Download). All IsQuiet x.log)
      (leb (d.last_progress_pct + 10) pct && ltb pct 100)
      (say (notify (downloading pct)) d.log h (said (downloading pct))) h

abbrev QuietRound : Round → Type 0
QuietRound (give_up s) = Unit
QuietRound (go_on d) = All IsQuiet d.log

round-QuietRound :
    (total : ℕ) (p : Poll) (d : Download)
    → All IsQuiet d.log
    → QuietRound (download_round total p d)
unfolding download_round take_in
round-QuietRound total p d h =
    let marked_log = say mark_healthy d.log h marked in
    let bytes = p.read (want total p.available d.received) in
    if_both QuietRound (p.available == 0)
      (if_both QuietRound (not p.connected) tt
        (if_both QuietRound (ltb 20000 (elapsed p.now d.last_data_ms)) tt marked_log))
      (if_both QuietRound (is_empty bytes) h
        (if_both QuietRound (not p.write_ok) tt (report-IsQuiet total _ marked_log)))

abbrev pub state_of : Progress → Download
state_of (running d) = d
state_of (broken s d) = d
state_of (complete d) = d

pub download-IsQuiet :
    (total : ℕ) (ps : List Poll) (d : Download)
    → All IsQuiet d.log
    → All IsQuiet (state_of (download total ps d)).log
unfolding download
download-IsQuiet total [] d h =
    if_both (λ x. All IsQuiet (state_of x).log) (ltb d.received total) h h
download-IsQuiet total (p ∷ ps) d h = elim (Bool-cases (ltb d.received total)) [
  | inr full ↦ rw (full, download) h
  | inl more ↦ elim (Round-cases (download_round total p d)) [
    | inl (s, e) ↦ rw (more, e, download) h
    | inr (d', e) ↦
        rw (more, e, download)
          (download-IsQuiet total ps d' (subst QuietRound e (round-QuietRound total p d h)))
  ]
]

-- The log of a call in which `Update.begin` answers `begins`: it pauses the watchdog as often as a
-- flash update has begun, and ends or aborts an update and resumes the watchdog as often; and it
-- shows neither a change of the stored versions nor a restart.
pub record IsClean (begins : Bool) (es : List Effect) : Type 0 where
  pub begun : count is_suspend es ≡ (if begins then count is_begin es else 0)
  pub resumed : count is_suspend es ≡ count is_resume es
  pub closed : count is_suspend es ≡ count is_close es
  pub untouched : count is_install es ≡ 0

pub Tally-IsClean :
    (begins : Bool) (es : List Effect) (o n : ℕ)
    → n ≡ (if begins then o else 0)
    → Tally es o n n n
    → IsClean begins es
Tally-IsClean begins es o n h t = record {
  begun = t.opens ∙ h ∙ ap (λ (x : ℕ). if begins then x else 0) (sym t.begins);
  resumed = t.opens ∙ sym t.resumes;
  closed = t.opens ∙ sym t.closes;
  untouched = t.installs;
}

-- A pause that is open, and the effects that end it.
pub closing :
    (begins : Bool) (xs ys : List Effect)
    → begins ≡ true
    → Tally xs 1 1 0 0
    → Tally ys 0 0 1 1
    → IsClean begins (xs ++ ys)
closing begins xs ys h s t =
    Tally-IsClean begins (xs ++ ys) 1 1 (rw h refl) (Tally-append xs ys 1 1 0 0 0 0 1 1 s t)
