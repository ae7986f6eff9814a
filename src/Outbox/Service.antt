-- ===== src/Outbox/Service.antt =====
-- A pass of `serviceOutboundQueue` over the queue.
use forge_key.Prelude.{
  ℕ, suc, ◌+◌, ◌<◌, ◌≡◌, refl, Bool, true, false, List, [], ◌∷◌, map, arith, All, Text, Bool-cases,
  if_both, subst, ap, if◌then◌else◌, inl, inr, u8,
}
use forge_key.Outbox.Message.{Message}
use forge_key.Outbox.Flash.{NvsApi}
use forge_key.Outbox.Queue.{Outbox, pass, retry, not_yet, service_outbound_queue}
use forge_key.Outbox.Backoff.{queue_backoff_bounds, retry_waits}

-- What a message says, without its retry state.
pub record Body : Type 0 where
  pub topic : Text
  pub payload : Text
  pub retain : Bool
  pub critical : Bool

abbrev pub body : Message → Body
body m = record { topic = m.topic; payload = m.payload; retain = m.retain; critical = m.critical }

-- Two lists that make up a third, each in its order.
pub data Merge {ℓ} {A : Type ℓ} : List A → List A → List A → Type ℓ where
  done : Merge [] [] []
  left : (a : A) {xs ys zs : List A} → Merge xs ys zs → Merge (a ∷ xs) ys (a ∷ zs)
  right : (a : A) {xs ys zs : List A} → Merge xs ys zs → Merge xs (a ∷ ys) (a ∷ zs)

-- The messages that are due, and those among them of which the link takes the write: `wrote` has
-- the answer to the k-th attempt of the pass.
abbrev pub due : ℕ → List Message → List Message
due now [] = []
due now (m ∷ ms) = if not_yet now m then due now ms else m ∷ due now ms

abbrev pub written : (ℕ → Bool) → ℕ → List Message → List Message
written wrote k [] = []
written wrote k (m ∷ ms) =
    if wrote k then m ∷ written wrote (suc k) ms else written wrote (suc k) ms

pass-written :
    (now : ℕ) (wrote : ℕ → Bool) (k : ℕ) (ms : List Message)
    → (pass now wrote k ms).sent ≡ written wrote k (due now ms)
unfolding pass
pass-written now wrote k [] = refl
pass-written now wrote k (m ∷ ms) = elim (Bool-cases (not_yet now m)) [
  | inl wait ↦ simp wait (pass-written now wrote k ms)
  | inr ready ↦ elim (Bool-cases (wrote k)) [
    | inl ok ↦ simp (ready, ok) (ap (λ ss. m ∷ ss) (pass-written now wrote (suc k) ms))
    | inr failed ↦ simp (ready, failed) (pass-written now wrote (suc k) ms)
  ]
]

body-retry : (now : ℕ) (m : Message) → body (retry now m) ≡ body m
unfolding retry
body-retry now m = refl

pass-Merge :
    (now : ℕ) (wrote : ℕ → Bool) (k : ℕ) (ms : List Message)
    → let p = pass now wrote k ms in Merge (map body p.kept) (map body p.sent) (map body ms)
unfolding pass retry
pass-Merge now wrote k [] = done
pass-Merge now wrote k (m ∷ ms) = elim (Bool-cases (not_yet now m)) [
  | inl wait ↦ simp wait (left (body m) (pass-Merge now wrote k ms))
  | inr due ↦ elim (Bool-cases (wrote k)) [
    | inl ok ↦ simp (due, ok) (right (body m) (pass-Merge now wrote (suc k) ms))
    | inr failed ↦ simp (due, failed) (left (body m) (pass-Merge now wrote (suc k) ms))
  ]
]

pass-not_yet :
    (now : ℕ) (wrote : ℕ → Bool) (k : ℕ) (ms : List Message)
    → now < 4294967296
    → All (λ m. not_yet now m ≡ true) (pass now wrote k ms).kept
unfolding pass
pass-not_yet now wrote k [] h = tt
pass-not_yet now wrote k (m ∷ ms) h = ground (
  arith,
  pass-not_yet now wrote k ms,
  pass-not_yet now wrote (suc k) ms,
  retry_waits now now m h h,
  queue_backoff_bounds (u8 (m.attempts + 1)),
)

-- A pass over a connected link takes exactly those messages out of the queue that were due and whose
-- attempt was written, where the due messages are tried in their order: what stays in the queue and
-- these make up the queue from before, each in its order, with topic, payload and flags as they
-- were. Nothing that stays is due at the time of the pass. Over a link that is down the whole
-- outbox stays as it was.
pub service_accounts :
    {Flash : Type 0} (api : NvsApi Flash) (now : ℕ) (connected : Bool) (wrote : ℕ → Bool)
    (s : Outbox Flash)
    → now < 4294967296
    → let t = service_outbound_queue api now connected wrote s in
      (connected ≡ true
        → Merge (map body t.queue) (map body (written wrote 0 (due now s.queue))) (map body s.queue)
          × All (λ m. not_yet now m ≡ true) t.queue)
      × (connected ≡ false → t ≡ s)
unfolding service_outbound_queue
service_accounts {Flash = Flash} api now true wrote s h = (
  λ _.
      let kept : List Message = (pass now wrote 0 s.queue).kept in
      let merged =
        subst (λ sent. Merge (map body kept) (map body sent) (map body s.queue))
          (pass-written now wrote 0 s.queue) (pass-Merge now wrote 0 s.queue) in
      if_both {A = Outbox Flash}
        (λ t.
          Merge (map body t.queue) (map body (written wrote 0 (due now s.queue))) (map body s.queue)
          × All (λ m. not_yet now m ≡ true) t.queue)
        (pass now wrote 0 s.queue).critical_changed (merged, pass-not_yet now wrote 0 s.queue h)
        (merged, pass-not_yet now wrote 0 s.queue h),
  λ e. cc,
)
service_accounts {Flash = Flash} api now false wrote s h = (λ e. cc, λ _. refl)
