-- ===== src/Main/Drained.antt =====
-- The calls on the ring of debug messages against a queue.
use forge_key.Prelude.{
  ℕ, zero, suc, ◌+◌, ◌-◌, ◌%◌, ◌≡◌, refl, ap, ap₂, ◌∙◌, Bool, true, false, List, [], ◌∷◌, ◌++◌,
  arith, ◌==◌, if◌then◌else◌, Bool-cases, inl, inr,
}
use forge_key.Main.Log.{
  Entry, Log, entry_at, flush_rounds, flush_buffered_debug_logs, emit_debug_log,
}
use forge_key.Main.Buffered.{
  IsRing, held, contents, enqueue, buffer_debug_log-IsRing, buffer_debug_log-contents,
}

-- The calls: a message with what `publishLog` returns for it, and a flush with the results of its
-- calls of `publishLog`.
pub data Call : Type 0 where
  emits : Bool → Entry → Call
  flushes : (ℕ → Bool) → Call

abbrev pub call : Call → Log → Log × List Entry
call (emits published e) l = emit_debug_log published e l
call (flushes publishes) l = flush_buffered_debug_logs publishes l

-- The log after the calls, and all that was published, in order.
unfoldable pub calls : List Call → Log → Log × List Entry
calls [] l = (l, [])
calls (c ∷ cs) l = let now = call c l in let later = calls cs now.0 in (later.0, now.1 ++ later.1)

-- The same on a queue: a flush publishes from its front, up to the first failure.
unfoldable pub publish_front : (ℕ → Bool) → ℕ → List Entry → List Entry × List Entry
publish_front publishes k [] = ([], [])
publish_front publishes k (e ∷ q) =
    let rest = publish_front publishes (suc k) q in
    if publishes k then (rest.0, e ∷ rest.1) else (e ∷ q, [])

abbrev pub queue_call : Call → List Entry → List Entry × List Entry
queue_call (emits published e) q = if published then (q, e ∷ []) else (enqueue e q, [])
queue_call (flushes publishes) q = publish_front publishes 0 q

unfoldable pub queue_calls : List Call → List Entry → List Entry × List Entry
queue_calls [] q = (q, [])
queue_calls (c ∷ cs) q =
    let now = queue_call c q in let later = queue_calls cs now.0 in (later.0, now.1 ++ later.1)

-- What the ring holds, with what was published.
abbrev pub seen : Log × List Entry → List Entry × List Entry
seen (l, published) = (contents l, published)

flush_rounds-publish_front :
    (slots : List Entry) (publishes : ℕ → Bool) (n k i : ℕ)
    → let l : Log = record { slots = slots; start = i; count = n } in
      seen (flush_rounds n publishes k l) ≡ publish_front publishes k (held slots i n)
unfolding flush_rounds publish_front held
flush_rounds-publish_front slots publishes zero k i = refl
flush_rounds-publish_front slots publishes (suc n) k i =
    let earlier = flush_rounds-publish_front slots publishes n (suc k) ((i + 1) % 24) in
    let more : (suc n == 0) ≡ false = ground arith in
    let fewer : suc n - 1 ≡ n = omega arith in
    elim (Bool-cases (publishes k)) [
      | inl sent ↦ rw (sent, more, fewer) (ap (λ r. (r.0, entry_at slots i ∷ r.1)) earlier)
      | inr kept ↦ rw (kept, more) refl
    ]

flush_rounds-IsRing :
    (publishes : ℕ → Bool) (n k : ℕ) (l : Log) → IsRing l → IsRing (flush_rounds n publishes k l).0
unfolding flush_rounds
flush_rounds-IsRing publishes zero k l ring = ring
flush_rounds-IsRing publishes (suc n) k l ring =
    let earlier =
      flush_rounds-IsRing publishes n (suc k)
        (record l { start = (l.start + 1) % 24; count = l.count - 1 })
        (record {
          slots_fit = ring.slots_fit;
          start_fits = omega arith;
          count_fits = omega (arith, ring.count_fits);
        }) in
    ground arith

call-IsRing : (c : Call) (l : Log) → IsRing l → IsRing (call c l).0
unfolding emit_debug_log flush_buffered_debug_logs
call-IsRing (emits true e) l ring = ring
call-IsRing (emits false e) l ring = buffer_debug_log-IsRing e l ring
call-IsRing (flushes publishes) l ring = flush_rounds-IsRing publishes l.count 0 l ring

call-queue_call : (c : Call) (l : Log) → IsRing l → seen (call c l) ≡ queue_call c (contents l)
unfolding emit_debug_log flush_buffered_debug_logs
call-queue_call (emits true e) l ring = refl
call-queue_call (emits false e) l ring = ap (λ q. (q, [])) (buffer_debug_log-contents e l ring)
call-queue_call (flushes publishes) l ring =
    flush_rounds-publish_front l.slots publishes l.count 0 l.start

-- The ring of debug messages is a queue: after any calls on a valid ring, what it holds and what
-- was published are what the same calls make of a queue, in which a message that cannot be
-- published waits clipped to its fields, the oldest of 24 gives way to a new one, and a flush
-- publishes the oldest first until `publishLog` fails.
pub calls-queue_calls :
    (cs : List Call) (l : Log) → IsRing l → seen (calls cs l) ≡ queue_calls cs (contents l)
unfolding calls queue_calls
calls-queue_calls [] l ring = refl
calls-queue_calls (c ∷ cs) l ring =
    let now = call-queue_call c l ring in
    ap₂ (λ r later. (later.0, r.1 ++ later.1)) now
      (calls-queue_calls cs (call c l).0 (call-IsRing c l ring) ∙ ap (λ r. queue_calls cs r.0) now)
