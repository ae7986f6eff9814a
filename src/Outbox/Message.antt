-- ===== src/Outbox/Message.antt =====
-- struct OutboundMessage, and the retry delay.
use forge_key.Prelude.{ℕ, zero, suc, ◌*◌, Bool, ltb, if◌then◌else◌, Text}

pub record Message : Type 0 where
  pub topic : Text
  pub payload : Text
  pub retain : Bool
  pub critical : Bool
  pub next_attempt_ms : ℕ
  pub attempts : ℕ  -- uint8

-- kOutboundQueueSize, and the longest payload with its terminator
abbrev pub outbound_queue_size : ℕ
outbound_queue_size = 8

abbrev pub payload_limit : ℕ
payload_limit = 768

abbrev pub topic_limit : ℕ
topic_limit = 160

abbrev pub queue_base_backoff_ms : ℕ
queue_base_backoff_ms = 1000

abbrev pub queue_max_backoff_ms : ℕ
queue_max_backoff_ms = 30000

-- The loop of `queueBackoffMs`: `rounds` are left, and it ends early at the maximum.
unfoldable pub double_until : ℕ → ℕ → ℕ
double_until zero backoff = backoff
double_until (suc rounds) backoff =
    let rest = double_until rounds (backoff * 2) in
    if ltb backoff queue_max_backoff_ms then rest else backoff

unfoldable pub queue_backoff_ms : ℕ → ℕ
unfolding double_until
queue_backoff_ms attempts =
    let backoff = double_until attempts queue_base_backoff_ms in
    if ltb queue_max_backoff_ms backoff then queue_max_backoff_ms else backoff
