-- ===== src/Watchdog/Safety.antt =====
-- When a tick may recover or restart, and when it feeds the task watchdog.
use forge_key.Prelude.{
  ℕ, suc, Text, ◌<◌, ◌≡◌, ◌≢◌, refl, Bool, true, false, not, ◌&&◌, ◌||◌, List, [], ◌∷◌, ◌++◌, arith,
  ltb, All, All-append, Bool-cases, inl, inr, if_both, if◌then◌else◌,
}
use forge_key.Watchdog.State.{SubsystemState, Watchdog}
use forge_key.Watchdog.Ops.{begin, suspend, resume}
use forge_key.Watchdog.Tick.{
  Readings, World, Effect, publish_warning, reset_task_wdt, esp_restart, subsystem_restarted,
  device_reboot, overdue_round, is_overdue, sweep, refresh_links, tick,
}

-- Is the task watchdog fed, and is the device restarted?
abbrev pub feeds : List Effect → Bool
feeds [] = false
feeds (reset_task_wdt ∷ es) = true
feeds (publish_warning i a ∷ es) = feeds es
feeds (esp_restart ∷ es) = feeds es

abbrev pub restarts : List Effect → Bool
restarts [] = false
restarts (esp_restart ∷ es) = true
restarts (publish_warning i a ∷ es) = restarts es
restarts (reset_task_wdt ∷ es) = restarts es

-- The watchdog as the loop of a tick sees it.
abbrev pub at_loop : ℕ → Readings → World → Watchdog → Watchdog
at_loop begin_ms r world w = refresh_links r world (if w.started then w else begin begin_ms w)

abbrev pub some_overdue : ℕ → List SubsystemState → Bool
some_overdue now [] = false
some_overdue now (c ∷ cs) = is_overdue now c || some_overdue now cs

feeds-append : (es fs : List Effect) → feeds (es ++ fs) ≡ (feeds es || feeds fs)
feeds-append [] fs = refl
feeds-append (reset_task_wdt ∷ es) fs = refl
feeds-append (publish_warning i a ∷ es) fs = feeds-append es fs
feeds-append (esp_restart ∷ es) fs = feeds-append es fs

pub restarts-append : (es fs : List Effect) → restarts (es ++ fs) ≡ (restarts es || restarts fs)
restarts-append [] fs = refl
restarts-append (esp_restart ∷ es) fs = refl
restarts-append (publish_warning i a ∷ es) fs = restarts-append es fs
restarts-append (reset_task_wdt ∷ es) fs = restarts-append es fs

pub overdue_round-effects :
    (r : Readings) (world : World) (depth i : ℕ) (c : SubsystemState)
    → let round = overdue_round r world depth i c in
      (feeds round.effects ≡ false) × (restarts round.effects ≡ round.restarted)
unfolding overdue_round
overdue_round-effects r world depth i c = ground arith

-- What a sweep says of itself is what its effects show, and it is overdue where a cell is.
pub sweep-effects :
    (r : Readings) (world : World) (depth i : ℕ) (cs : List SubsystemState)
    → let s = sweep r world depth i cs in
      (feeds s.effects ≡ false)
      × (restarts s.effects ≡ s.restarted)
      × (s.any_overdue ≡ some_overdue r.now cs)
unfolding sweep
sweep-effects r world depth i [] = (refl, refl, refl)
sweep-effects r world depth i (c ∷ cs) =
    let round = overdue_round r world depth i c in
    let rest = sweep r world depth (suc i) cs in
    ground (
      arith,
      sweep-effects r world depth (suc i) cs,
      overdue_round-effects r world depth i c,
      feeds-append round.effects rest.effects,
      restarts-append round.effects rest.effects,
    )

sweep-quiet :
    (r : Readings) (world : World) (depth i : ℕ) (cs : List SubsystemState)
    → some_overdue r.now cs ≡ false
    → let s = sweep r world depth i cs in (s.effects ≡ []) × (s.restarted ≡ false)
unfolding sweep
sweep-quiet r world depth i [] h = (refl, refl)
sweep-quiet r world depth i (c ∷ cs) h = ground (arith, sweep-quiet r world depth (suc i) cs)

-- A tick feeds the task watchdog exactly when it does not restart the device and either no
-- supervised subsystem is overdue or a safe section is open.
pub tick-feeds :
    (begin_ms : ℕ) (r : Readings) (world : World) (w : Watchdog)
    → let linked = at_loop begin_ms r world w in
      let effects = (tick begin_ms r world w).1 in
      feeds effects ≡ (
        not (restarts effects)
        && (not (some_overdue r.now linked.subsystems) || ltb 0 linked.suspend_depth))
unfolding tick
tick-feeds begin_ms r world w =
    let linked = at_loop begin_ms r world w in
    let s = sweep r world linked.suspend_depth 0 linked.subsystems in
    ground (
      arith,
      sweep-effects r world linked.suspend_depth 0 linked.subsystems,
      feeds-append s.effects (reset_task_wdt ∷ []),
      restarts-append s.effects (reset_task_wdt ∷ []),
    )

-- In a safe section only warnings are published: no recovery is tried and no reboot announced,
-- and the device is not restarted.
abbrev pub IsDeferred : Effect → Type 0
IsDeferred (publish_warning i a) = (a ≢ subsystem_restarted) × (a ≢ device_reboot)
IsDeferred reset_task_wdt = Unit {0}
IsDeferred esp_restart = ⊥

overdue_round-IsDeferred :
    (r : Readings) (world : World) (depth i : ℕ) (c : SubsystemState)
    → 0 < depth
    → All IsDeferred (overdue_round r world depth i c).effects
      × ((overdue_round r world depth i c).restarted ≡ false)
unfolding overdue_round
overdue_round-IsDeferred r world depth i c h = ground arith

sweep-IsDeferred :
    (r : Readings) (world : World) (depth i : ℕ) (cs : List SubsystemState)
    → 0 < depth
    → All IsDeferred (sweep r world depth i cs).effects
unfolding sweep
sweep-IsDeferred r world depth i [] h = tt
sweep-IsDeferred r world depth i (c ∷ cs) h =
    let (here, go_on) = overdue_round-IsDeferred r world depth i c h in
    let rest = sweep-IsDeferred r world depth (suc i) cs h in
    elim (Bool-cases (is_overdue r.now c)) [
      | inr e ↦ rw (e, sweep) rest
      | inl e ↦ rw (e, go_on, sweep) (All-append IsDeferred _ _ here rest)
    ]

pub depth-at_loop :
    (begin_ms : ℕ) (r : Readings) (world : World) (w : Watchdog)
    → (at_loop begin_ms r world w).suspend_depth ≡ w.suspend_depth
unfolding refresh_links begin
depth-at_loop begin_ms r world w = ground arith

-- While a safe section is open a tick publishes warnings only: it tries no recovery, announces
-- no reboot and does not restart the device.
pub suspended_tick :
    (begin_ms : ℕ) (r : Readings) (world : World) (w : Watchdog)
    → 0 < w.suspend_depth
    → All IsDeferred (tick begin_ms r world w).1
unfolding tick
suspended_tick begin_ms r world w h =
    let linked = at_loop begin_ms r world w in
    let s =
      sweep-IsDeferred r world linked.suspend_depth 0 linked.subsystems
        (rw (depth-at_loop begin_ms r world w) h) in
    if_both (All IsDeferred) _ (All-append IsDeferred _ _ s (tt, tt)) s

-- Safe sections nest: closing the one just opened leaves the depth as it was, below the byte's
-- limit, and inside another section it leaves the subsystems alone too.
pub resume-suspend :
    (now : ℕ) (reason : Text) (w : Watchdog)
    → w.suspend_depth < 255
    → let closed = resume now (suspend reason w) in
      (closed.suspend_depth ≡ w.suspend_depth)
      × (0 < w.suspend_depth → closed.subsystems ≡ w.subsystems)
unfolding suspend resume
resume-suspend now reason w h = ground arith
