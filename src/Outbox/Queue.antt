-- ===== src/Outbox/Queue.antt =====
-- `enqueueOutbound`, `publishImmediate` and `serviceOutboundQueue`.
use forge_key.Prelude.{
  ℕ, zero, suc, ◌+◌, Bool, true, false, ◌||◌, Option, none, some, List, [], ◌∷◌, ◌++◌, leb,
  if◌then◌else◌, length, Text, codes, is_empty, elapsed, u8, u32,
}
use mathlib.Core.Option
use forge_key.Watchdog.State.{Watchdog, wifi, mqtt}
use forge_key.Watchdog.Ops.{mark_healthy, suspend, resume}
use forge_key.Outbox.Message.{Message, outbound_queue_size, payload_limit, queue_backoff_ms}
use forge_key.Outbox.Flash.{NvsApi, persist_critical_queue, load_critical_queue}

-- The part of MqttClient that the queue works on, with the watchdog and the flash beside it.
pub record Outbox (Flash : Type 0) : Type 0 where
  pub queue : List Message
  pub last_publish_ms : ℕ
  pub watchdog : Watchdog
  pub flash : Flash

-- The index of the first entry that is not critical.
unfoldable pub first_noncritical : List Message → Option ℕ
first_noncritical [] = none
first_noncritical (m ∷ ms) = if m.critical then Option.map suc (first_noncritical ms) else some 0

unfoldable pub remove_at : ℕ → List Message → List Message
remove_at i [] = []
remove_at zero (m ∷ ms) = ms
remove_at (suc i) (m ∷ ms) = m ∷ remove_at i ms

-- Which entry gives way in a full queue, and is it critical; `none` if the new one must give way.
unfoldable pub victim : List Message → Bool → Option (ℕ × Bool)
victim queue critical = elim (first_noncritical queue) [
  | some i ↦ some (i, false)
  | none ↦ if critical then some (0, true) else none
]

abbrev pub new_message : ℕ → Text → Text → Bool → Bool → Message
new_message now topic payload retain critical = record {
  topic = topic;
  payload = payload;
  retain = retain;
  critical = critical;
  next_attempt_ms = now;
  attempts = 0;
}

module _ {Flash : Type 0} (api : NvsApi Flash) where
  -- `persistCriticalQueue` works in a safe section of the watchdog.
  unfoldable pub persist : ℕ → Outbox Flash → Outbox Flash
  persist now s = record s {
    watchdog = resume now (suspend (codes "mqtt_outbox_nvs") s.watchdog);
    flash = persist_critical_queue api s.queue s.flash;
  }

  -- Drops one entry of a full queue.
  unfoldable pub evict : ℕ → ℕ → Bool → Outbox Flash → Outbox Flash
  evict now i was_critical s =
      let dropped = record s { queue = remove_at i s.queue } in
      if was_critical then persist now dropped else dropped

  unfoldable pub push : ℕ → Message → Outbox Flash → Outbox Flash
  push now m s =
      let added = record s { queue = s.queue ++ m ∷ [] } in
      if m.critical then persist now added else added

  unfoldable pub enqueue_outbound :
      ℕ → Text → Text → Bool → Bool → Outbox Flash → Outbox Flash × Bool
  enqueue_outbound now topic payload retain critical s =
      let m = new_message now topic payload retain critical in
      if is_empty topic || leb payload_limit (length payload)
      then (s, false)
      else if leb outbound_queue_size (length s.queue)
      then elim (victim s.queue critical) [
        | none ↦ (s, false)
        | some (i, was_critical) ↦ (push now m (evict now i was_critical s), true)
      ]
      else (push now m s, true)

  unfoldable pub load : Outbox Flash → Outbox Flash
  load s = record s { queue = load_critical_queue api s.flash s.queue }

-- (long)(now - nextAttemptMs) < 0
abbrev pub not_yet : ℕ → Message → Bool
not_yet now m = leb 2147483648 (elapsed now m.next_attempt_ms)

-- A failed attempt: count it, in a byte, and wait.
unfoldable pub retry : ℕ → Message → Message
retry now m = record m {
  attempts = u8 (m.attempts + 1);
  next_attempt_ms = u32 (now + queue_backoff_ms (u8 (m.attempts + 1)));
}

-- What one pass over the queue leaves, what it sent, and whether a critical entry was sent.
pub record Pass : Type 0 where
  pub kept : List Message
  pub sent : List Message
  pub critical_changed : Bool

-- The loop of `serviceOutboundQueue`. `wrote k` is the outcome of the pass's k-th call of
-- `publishImmediate`, which is false where the link is down or the socket refuses.
unfoldable pub pass : ℕ → (ℕ → Bool) → ℕ → List Message → Pass
pass now wrote k [] = record { kept = []; sent = []; critical_changed = false }
pass now wrote k (m ∷ ms) =
    let later = pass now wrote k ms in
    let next = pass now wrote (suc k) ms in
    if not_yet now m
    then record later { kept = m ∷ later.kept }
    else if wrote k
    then record next {
      sent = m ∷ next.sent;
      critical_changed = m.critical || next.critical_changed;
    }
    else record next { kept = retry now m ∷ next.kept }

-- A write that went out refreshes the clock of the last publish and the watchdog's two links.
abbrev pub note_sent : ℕ → List Message → ℕ × Watchdog → ℕ × Watchdog
note_sent now [] s = s
note_sent now (m ∷ ms) (last, w) =
    note_sent now ms (now, mark_healthy now mqtt (mark_healthy now wifi w))

module _ {Flash : Type 0} (api : NvsApi Flash) where
  -- `now` stands for the reading of the pass and for those of its sends and of the persisting.
  unfoldable pub service_outbound_queue : ℕ → Bool → (ℕ → Bool) → Outbox Flash → Outbox Flash
  unfolding persist
  service_outbound_queue now connected wrote s =
      let p = pass now wrote 0 s.queue in
      let (last, watchdog) = note_sent now p.sent (s.last_publish_ms, s.watchdog) in
      let passed = record s { queue = p.kept; last_publish_ms = last; watchdog = watchdog } in
      if connected then (if p.critical_changed then persist api now passed else passed) else s
