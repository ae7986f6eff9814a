-- ===== src/Watchdog/Invariant.antt =====
-- What holds of every subsystem between two calls, and that all operations keep it.
use forge_key.Prelude.{
  ℕ, suc, ◌≤◌, ◌≡◌, refl, ap, ◌∙◌, Bool, true, false, List, [], ◌∷◌, map, arith, length, All,
  All-modify, length-modify, modify-modify, Text, Bool-cases, inl, inr, if_both, if◌then◌else◌, ltb,
}
use forge_key.Watchdog.State.{Subsystem, wifi, mqtt, index, SubsystemState, Watchdog, initial}
use forge_key.Watchdog.Ops.{
  with_state, disable_cell, refresh_busy, start_cell, healthy_cell, begin, mark_healthy, mark_busy,
  mark_idle, set_enabled, suspend, resume,
}
use forge_key.Watchdog.Tick.{Readings, World, overdue_round, sweep, refresh_links, tick}

-- A subsystem that is not overdue has no overdue clock running, and a disabled one is not overdue.
pub record IsSane (c : SubsystemState) : Type 0 where
  pub clock_stopped : c.overdue ≡ false → c.first_overdue_ms ≡ 0
  pub disabled_quiet : c.enabled ≡ false → c.overdue ≡ false

-- Seven sane cells, and a suspend depth that fits its byte.
pub record IsValid (w : Watchdog) : Type 0 where
  pub cells : All IsSane w.subsystems
  pub seven : length w.subsystems ≡ 7
  pub depth_fits : w.suspend_depth ≤ 255

pub initial-IsValid : IsValid initial
unfolding initial
initial-IsValid = ground arith

abbrev Keeps : (SubsystemState → SubsystemState) → Type 0
Keeps f = (c : SubsystemState) → IsSane c → IsSane (f c)

All-map :
    (f : SubsystemState → SubsystemState) (cs : List SubsystemState)
    → Keeps f
    → All IsSane cs
    → All IsSane (map f cs)
All-map f [] k h = tt
All-map f (c ∷ cs) k h = (k c h.0, All-map f cs k h.1)

length-map :
    (f : SubsystemState → SubsystemState) (cs : List SubsystemState) → length (map f cs) ≡ length cs
length-map f [] = refl
length-map f (c ∷ cs) = ap suc (length-map f cs)

begin-IsValid : (now : ℕ) (w : Watchdog) → IsValid w → IsValid (begin now w)
unfolding begin
begin-IsValid now w v = record {
  cells = All-map (start_cell now) w.subsystems (λ c h. ground arith) v.cells;
  seven = length-map (start_cell now) w.subsystems ∙ v.seven;
  depth_fits = v.depth_fits;
}

with_state-IsValid :
    (s : Subsystem) (f : SubsystemState → SubsystemState) (w : Watchdog)
    → Keeps f
    → IsValid w
    → IsValid (with_state s f w)
with_state-IsValid s f w k v = elim (Bool-cases (ltb (index s) 7)) [
  | inr out ↦ rw out v
  | inl inside ↦ rw inside (record {
    cells = All-modify IsSane (index s) f w.subsystems k v.cells;
    seven = length-modify (index s) f w.subsystems ∙ v.seven;
    depth_fits = v.depth_fits;
  })
]

healthy-Keeps : (now : ℕ) → Keeps (healthy_cell now)
healthy-Keeps now c h = ground arith

mark_healthy-IsValid :
    (now : ℕ) (s : Subsystem) (w : Watchdog) → IsValid w → IsValid (mark_healthy now s w)
unfolding mark_healthy
mark_healthy-IsValid now s w v = with_state-IsValid s (healthy_cell now) w (healthy-Keeps now) v

mark_busy-IsValid :
    (now : ℕ) (s : Subsystem) (w : Watchdog) → IsValid w → IsValid (mark_busy now s w)
unfolding mark_busy
mark_busy-IsValid now s w v =
    with_state-IsValid s (healthy_cell now) _ (healthy-Keeps now)
      (with_state-IsValid s (λ c. record c { busy = true }) w (λ c h. ground arith) v)

mark_idle-IsValid :
    (now : ℕ) (s : Subsystem) (w : Watchdog) → IsValid w → IsValid (mark_idle now s w)
unfolding mark_idle
mark_idle-IsValid now s w v =
    with_state-IsValid s (healthy_cell now) _ (healthy-Keeps now)
      (with_state-IsValid s (λ c. record c { busy = false }) w (λ c h. ground arith) v)

-- Two changes of one cell are one change.
with_state_twice :
    (s : Subsystem) (f g : SubsystemState → SubsystemState) (w : Watchdog)
    → with_state s g (with_state s f w) ≡ with_state s (λ c. g (f c)) w
with_state_twice s f g w = elim (Bool-cases (ltb (index s) 7)) [
  | inr out ↦ rw out
  | inl inside ↦ rw (inside, modify-modify (index s) f g w.subsystems)
]

set_enabled-IsValid :
    (now : ℕ) (s : Subsystem) (on : Bool) (w : Watchdog)
    → IsValid w
    → IsValid (set_enabled now s on w)
unfolding set_enabled
set_enabled-IsValid now s true w v =
    with_state-IsValid s (healthy_cell now) _ (healthy-Keeps now)
      (with_state-IsValid s (λ c. record c { enabled = true }) w (λ c h. ground arith) v)
set_enabled-IsValid now s false w v =
    rw (with_state_twice s (λ c. record c { enabled = false }) disable_cell w) (
      with_state-IsValid s (λ c. disable_cell (record c { enabled = false })) w
        (λ c h. ground arith) v)

suspend-IsValid : (reason : Text) (w : Watchdog) → IsValid w → IsValid (suspend reason w)
unfolding suspend
suspend-IsValid reason w v = ground arith

resume-IsValid : (now : ℕ) (w : Watchdog) → IsValid w → IsValid (resume now w)
unfolding resume
resume-IsValid now w v = ground (
  arith,
  All-map (refresh_busy now) w.subsystems (λ c h. ground arith) v.cells,
  length-map (refresh_busy now) w.subsystems,
)

-- A sweep keeps the cells sane, and their number.
overdue_round-IsSane :
    (r : Readings) (world : World) (depth i : ℕ) (c : SubsystemState)
    → c.enabled ≡ true
    → IsSane c
    → IsSane (overdue_round r world depth i c).cell
unfolding overdue_round
overdue_round-IsSane r world depth i c on h = ground arith

sweep-cells :
    (r : Readings) (world : World) (depth i : ℕ) (cs : List SubsystemState)
    → All IsSane cs
    → All IsSane (sweep r world depth i cs).cells
      × (length (sweep r world depth i cs).cells ≡ length cs)
unfolding sweep
sweep-cells r world depth i [] h = (tt, refl)
sweep-cells r world depth i (c ∷ cs) h =
    ground (arith, sweep-cells r world depth (suc i) cs h.1, overdue_round-IsSane r world depth i c)

refresh_links-IsValid :
    (r : Readings) (world : World) (w : Watchdog) → IsValid w → IsValid (refresh_links r world w)
unfolding refresh_links
refresh_links-IsValid r world w v =
    let linked : IsValid (if world.wifi_connected then mark_healthy r.wifi_ms wifi w else w) =
      if_both IsValid world.wifi_connected (mark_healthy-IsValid r.wifi_ms wifi w v) v in
    if_both IsValid world.mqtt_connected (mark_healthy-IsValid r.mqtt_ms mqtt _ linked) linked

tick-IsValid :
    (begin_ms : ℕ) (r : Readings) (world : World) (w : Watchdog)
    → IsValid w
    → IsValid (tick begin_ms r world w).0
unfolding tick
tick-IsValid begin_ms r world w v =
    swept (refresh_links r world (if w.started then w else begin begin_ms w))
      (refresh_links-IsValid r world _ started)
  where
    started : IsValid (if w.started then w else begin begin_ms w)
    started = if_both IsValid w.started v (begin-IsValid begin_ms w v)

    swept :
        (u : Watchdog)
        → IsValid u
        → IsValid (record u { subsystems = (sweep r world u.suspend_depth 0 u.subsystems).cells })
    swept u vu =
        let (sane, same) = sweep-cells r world u.suspend_depth 0 u.subsystems vu.cells in
        record { cells = sane; seven = same ∙ vu.seven; depth_fits = vu.depth_fits }

-- Any sequence of calls, with the clock readings that they make.
pub data Call : Type 0 where
  begins : ℕ → Call
  marks_healthy marks_busy marks_idle : ℕ → Subsystem → Call
  sets_enabled : ℕ → Subsystem → Bool → Call
  suspends : Text → Call
  resumes : ℕ → Call
  ticks : ℕ → Readings → World → Call

unfoldable pub call : Watchdog → Call → Watchdog
call w (begins now) = begin now w
call w (marks_healthy now s) = mark_healthy now s w
call w (marks_busy now s) = mark_busy now s w
call w (marks_idle now s) = mark_idle now s w
call w (sets_enabled now s on) = set_enabled now s on w
call w (suspends reason) = suspend reason w
call w (resumes now) = resume now w
call w (ticks begin_ms r world) = (tick begin_ms r world w).0

unfoldable pub calls : Watchdog → List Call → Watchdog
calls w [] = w
calls w (c ∷ cs) = calls (call w c) cs

call-IsValid : (w : Watchdog) (c : Call) → IsValid w → IsValid (call w c)
unfolding call
call-IsValid w (begins now) v = begin-IsValid now w v
call-IsValid w (marks_healthy now s) v = mark_healthy-IsValid now s w v
call-IsValid w (marks_busy now s) v = mark_busy-IsValid now s w v
call-IsValid w (marks_idle now s) v = mark_idle-IsValid now s w v
call-IsValid w (sets_enabled now s on) v = set_enabled-IsValid now s on w v
call-IsValid w (suspends reason) v = suspend-IsValid reason w v
call-IsValid w (resumes now) v = resume-IsValid now w v
call-IsValid w (ticks begin_ms r world) v = tick-IsValid begin_ms r world w v

-- After any sequence of calls on a valid watchdog there are seven cells, each disabled cell is
-- not overdue, no cell that is not overdue has an overdue clock running, and the suspend depth
-- fits its byte.
pub calls-IsValid : (w : Watchdog) (cs : List Call) → IsValid w → IsValid (calls w cs)
unfolding calls
calls-IsValid w [] v = v
calls-IsValid w (c ∷ cs) v = calls-IsValid (call w c) cs (call-IsValid w c v)
