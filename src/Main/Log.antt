-- ===== src/Main/Log.antt =====
-- The ring of debug messages that wait for the broker: `bufferDebugLog`, `flushBufferedDebugLogs`
-- and `emitDebugLog`. What each call of `publishLog` returns is an argument.
use forge_key.Prelude.{
  ℕ, zero, suc, ◌+◌, ◌-◌, ◌%◌, Bool, Option, none, some, List, [], ◌∷◌, ltb, ◌==◌, if◌then◌else◌,
  get_elem?, take, replicate, modify, Text,
}

-- BufferedDebugLog
pub record Entry : Type 0 where
  pub timestamp_ms : ℕ
  pub level : Text
  pub tag : Text
  pub message : Text

-- g_bufferedDebugLogs, g_bufferedDebugLogStart and g_bufferedDebugLogCount
pub record Log : Type 0 where
  pub slots : List Entry
  pub start : ℕ
  pub count : ℕ

abbrev pub blank : Entry
blank = record { timestamp_ms = 0; level = []; tag = []; message = [] }

unfoldable pub initial : Log
initial = record { slots = replicate 24 blank; start = 0; count = 0 }

-- snprintf("%s") into a field: what fits before the terminating zero.
abbrev pub copy_debug_field : ℕ → Text → Text
copy_debug_field size text = take (size - 1) text

abbrev pub clipped : Entry → Entry
clipped e = record {
  timestamp_ms = e.timestamp_ms;
  level = copy_debug_field 8 e.level;
  tag = copy_debug_field 16 e.tag;
  message = copy_debug_field 160 e.message;
}

unfoldable pub buffer_debug_log : Entry → Log → Log
buffer_debug_log e l =
    if ltb l.count 24
    then record {
      slots = modify ((l.start + l.count) % 24) (λ old. clipped e) l.slots;
      start = l.start;
      count = l.count + 1;
    }
    else record {
      slots = modify l.start (λ old. clipped e) l.slots;
      start = (l.start + 1) % 24;
      count = l.count;
    }

abbrev or_blank : Option Entry → Entry
or_blank none = blank
or_blank (some e) = e

-- g_bufferedDebugLogs[index]
unfoldable pub entry_at : List Entry → ℕ → Entry
entry_at slots i = or_blank (get_elem? slots i)

-- The log after some rounds of the loop, and the entries that were published.
unfoldable pub flush_rounds : ℕ → (ℕ → Bool) → ℕ → Log → Log × List Entry
unfolding entry_at
flush_rounds zero publishes k l = (l, [])
flush_rounds (suc n) publishes k l =
    let e = entry_at l.slots l.start in
    let rest =
      flush_rounds n publishes (suc k)
        (record l { start = (l.start + 1) % 24; count = l.count - 1 }) in
    if l.count == 0 then (l, []) else if publishes k then (rest.0, e ∷ rest.1) else (l, [])

-- Each round but the last takes one entry, so `count` rounds are enough; `publishes k` is the
-- result of the k-th call of `publishLog`.
unfoldable pub flush_buffered_debug_logs : (ℕ → Bool) → Log → Log × List Entry
unfolding flush_rounds
flush_buffered_debug_logs publishes l = flush_rounds l.count publishes 0 l

-- The log, and the entry if it was published at once.
unfoldable pub emit_debug_log : Bool → Entry → Log → Log × List Entry
unfolding buffer_debug_log
emit_debug_log published e l = if published then (l, e ∷ []) else (buffer_debug_log e l, [])
