-- ===== src/Watchdog/Escalation.antt =====
-- How an overdue subsystem leads to a restart, and two ways in which a healthy device gets there.
use forge_key.Prelude.{
  ℕ, zero, suc, ◌-◌, subst, ◌+◌, ◌≤◌, ◌<◌, ◌≡◌, ◌∙◌, true, false, List, [], ◌∷◌, arith, get_elem?,
  elapsed, some,
}
use forge_key.Watchdog.State.{SubsystemState, Watchdog, reboot_after_ms}
use forge_key.Watchdog.Ops.{healthy_cell}
use forge_key.Watchdog.Tick.{
  Readings, World, reset_task_wdt, overdue_round, is_overdue, warning_due, try_recover, sweep,
  refresh_links, tick,
}
use forge_key.Watchdog.Safety.{
  depth-at_loop, at_loop, restarts, feeds, some_overdue, sweep-effects, restarts-append, tick-feeds,
}

-- One round that restarts makes the whole sweep restart.
sweep-restarts :
    (r : Readings) (world : World) (depth i j k : ℕ) (cs : List SubsystemState) (c : SubsystemState)
    → j ≡ i + k
    → get_elem? cs k ≡ some c
    → is_overdue r.now c ≡ true
    → (overdue_round r world depth j c).restarted ≡ true
    → (sweep r world depth i cs).restarted ≡ true
unfolding sweep
sweep-restarts r world depth i j k [] c a e h q = cc
sweep-restarts r world depth i j zero (x ∷ cs) c a e h q =
    let same : j ≡ i = omega arith in
    let found : x ≡ c = cc in
    let again = subst (λ n. (overdue_round r world depth n c).restarted ≡ true) same q in
    rw (found, h, again, sweep)
sweep-restarts r world depth i j (suc k) (x ∷ cs) c a e h q =
    ground (arith, sweep-restarts r world depth (suc i) j k cs c (omega arith) e h q)

tick-restarts :
    (begin_ms : ℕ) (r : Readings) (world : World) (w : Watchdog)
    → let linked = at_loop begin_ms r world w in
      restarts (tick begin_ms r world w).1
      ≡ (sweep r world linked.suspend_depth 0 linked.subsystems).restarted
unfolding tick
tick-restarts begin_ms r world w =
    let linked = at_loop begin_ms r world w in
    let s = sweep r world linked.suspend_depth 0 linked.subsystems in
    ground (
      arith,
      sweep-effects r world linked.suspend_depth 0 linked.subsystems,
      restarts-append s.effects (reset_task_wdt ∷ []),
    )

module _ (begin_ms : ℕ) (r : Readings) (world : World) (w : Watchdog) (k : ℕ) (c : SubsystemState)
    (cell : get_elem? (at_loop begin_ms r world w).subsystems k ≡ some c)
    (overdue : is_overdue r.now c ≡ true) (no_section : w.suspend_depth ≡ 0) where
  restarts_by_round :
      (overdue_round r world 0 k c).restarted ≡ true → restarts (tick begin_ms r world w).1 ≡ true
  restarts_by_round h =
      tick-restarts begin_ms r world w
      ∙ sweep-restarts r world _ 0 k k _ c (omega arith) cell overdue
          (rw (depth-at_loop begin_ms r world w, no_section) h)

  -- A subsystem that is not recovered and has been overdue for fifteen minutes restarts the
  -- device, if no safe section is open.
  pub unrecovered-restarts :
      0 < c.first_overdue_ms
      → reboot_after_ms ≤ elapsed r.now c.first_overdue_ms
      → try_recover 0 world.recover k ≡ false
      → restarts (tick begin_ms r world w).1 ≡ true
  unfolding overdue_round
  unrecovered-restarts since long hopeless = restarts_by_round (ground arith)

  -- The recovery resets the overdue clock to 0, and the reboot test after it measures from there:
  -- a subsystem that the callback has just recovered restarts the device, if it has been up for
  -- fifteen minutes and no safe section is open.
  pub recovered-restarts :
      r.now < 4294967296
      → reboot_after_ms ≤ r.now
      → warning_due r.now c ≡ true
      → try_recover 0 world.recover k ≡ true
      → restarts (tick begin_ms r world w).1 ≡ true
  unfolding overdue_round
  recovered-restarts word late due recovered = restarts_by_round (ground arith)

some_overdue-at_loop :
    (begin_ms : ℕ) (r : Readings) (world : World) (w : Watchdog) (c : SubsystemState)
    (cs : List SubsystemState)
    → w.started ≡ true
    → w.subsystems ≡ c ∷ cs
    → world.wifi_connected ≡ true
    → is_overdue r.now (healthy_cell r.wifi_ms c) ≡ true
    → some_overdue r.now (at_loop begin_ms r world w).subsystems ≡ true
unfolding refresh_links
some_overdue-at_loop begin_ms r world w c [] s e l h = ground arith
some_overdue-at_loop begin_ms r world w c (d ∷ cs) s e l h = ground arith

-- `tick` reads the clock before it marks WiFi healthy, and the mark reads it again. Where the
-- clock moves on in between, the age of the connected WiFi wraps round: it counts as overdue, and
-- the tick does not feed the task watchdog. The link is supervised and not busy here, no safe
-- section is open, and the clock itself does not wrap.
pub late_mark-starves :
    (begin_ms : ℕ) (r : Readings) (world : World) (w : Watchdog) (c : SubsystemState)
    (cs : List SubsystemState)
    → w.started ≡ true
    → w.suspend_depth ≡ 0
    → w.subsystems ≡ c ∷ cs
    → world.wifi_connected ≡ true
    → c.enabled ≡ true
    → c.busy ≡ false
    → r.now < r.wifi_ms
    → r.wifi_ms < 4294967296
    → c.timeout_ms + (r.wifi_ms - r.now) < 4294967296
    → feeds (tick begin_ms r world w).1 ≡ false
late_mark-starves begin_ms r world w c cs s z e l on idle late word room = ground (
  arith,
  tick-feeds begin_ms r world w,
  some_overdue-at_loop begin_ms r world w c cs s e l (ground arith),
  depth-at_loop begin_ms r world w,
)
