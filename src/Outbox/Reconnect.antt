-- ===== src/Outbox/Reconnect.antt =====
-- The reconnection in `MqttClient::loop`, behind its service of the queue.
use forge_key.Prelude.{
  ℕ, ◌+◌, ◌*◌, ◌^◌, ◌≤◌, ◌≡◌, min, Bool, true, false, not, ◌&&◌, arith, ltb, if◌then◌else◌, elapsed,
}
use forge_key.Outbox.Message.{queue_backoff_ms}
use forge_key.Outbox.Backoff.{queue_backoff_ms_lem}

-- lastReconnectAttempt and reconnectFailures
pub record Link : Type 0 where
  pub last_attempt_ms : ℕ
  pub failures : ℕ  -- uint8

-- What one pass meets: the client, WiFi with an address, the uptime before and after the attempt,
-- and whether the attempt succeeds.
pub record Meeting : Type 0 where
  pub connected : Bool
  pub wifi_up : Bool
  pub now : ℕ
  pub after_ms : ℕ
  pub succeeds : Bool

-- The members, and whether `connect` was called.
unfoldable pub reconnect : Meeting → Link → Link × Bool
reconnect m l =
    if m.connected
    then (record l { failures = 0 }, false)
    else if not m.wifi_up
    then (l, false)
    else if ltb (queue_backoff_ms l.failures) (elapsed m.now l.last_attempt_ms)
    then (
      record {
        last_attempt_ms = m.after_ms;
        failures =
            if m.succeeds then 0 else if ltb l.failures 255 then l.failures + 1 else l.failures;
      },
      true,
    )
    else (l, false)

-- `connect` is called exactly where the connection is lost, WiFi has an address, and more time has
-- passed since the last attempt than one second doubled for each failure, thirty at most.
pub reconnect_lem :
    (m : Meeting) (l : Link)
    → (reconnect m l).1 ≡ (
        not m.connected
        && m.wifi_up
        && ltb (min 30000 (1000 * 2 ^ l.failures)) (elapsed m.now l.last_attempt_ms))
unfolding reconnect
reconnect_lem m l = ground (arith, queue_backoff_ms_lem l.failures)

-- The count of failures stays a byte.
pub reconnect_bound : (m : Meeting) (l : Link) → l.failures ≤ 255 → (reconnect m l).0.failures ≤ 255
unfolding reconnect
reconnect_bound m l h = ground arith
