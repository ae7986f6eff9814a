-- ===== src/Outbox/Priority.antt =====
-- What `enqueueOutbound` accepts, and which entry gives way in a full queue.
use forge_key.Prelude.{
  ltb→lt, ℕ, zero, suc, ◌+◌, ◌≤◌, ◌<◌, ◌≡◌, refl, Bool, true, false, arith, ltb, leb, is_empty,
  if◌then◌else◌, List, [], ◌∷◌, ◌++◌, length, length-append, Text, some, none, Option-cases, keep,
  tail, ◌⊎◌, Bool-cases, inl, inr,
}
use forge_key.Outbox.Message.{Message}
use forge_key.Outbox.Flash.{NvsApi}
use forge_key.Outbox.Queue.{
  Outbox, first_noncritical, remove_at, victim, persist, evict, push, enqueue_outbound, new_message,
}

abbrev pub criticals : List Message → List Message
criticals = keep (λ m. m.critical)

pub length-criticals : (ms : List Message) → length (criticals ms) ≤ length ms
length-criticals [] = omega arith
length-criticals (m ∷ ms) = ground (arith, length-criticals ms)

first_noncritical-some :
    (ms : List Message) (i : ℕ)
    → first_noncritical ms ≡ some i
    → (criticals (remove_at i ms) ≡ criticals ms)
      × (length (remove_at i ms) + 1 ≡ length ms)
      × (length (criticals ms) < length ms)
unfolding first_noncritical remove_at
first_noncritical-some [] i h = cc
first_noncritical-some (m ∷ ms) zero h =
    ground (arith, first_noncritical-some ms zero, length-criticals ms)
first_noncritical-some (m ∷ ms) (suc i) h = ground (arith, first_noncritical-some ms i)

first_noncritical-none :
    (ms : List Message)
    → first_noncritical ms ≡ none
    → (criticals ms ≡ ms) × (criticals (tail ms) ≡ tail ms)
unfolding first_noncritical
first_noncritical-none [] h = (refl, refl)
first_noncritical-none (m ∷ ms) h = ground (arith, first_noncritical-none ms)

-- The three things that can happen to a full queue.
data Victim (q : List Message) (critical : Bool) : Type 0 where
  newcomer : victim q critical ≡ none → critical ≡ false → criticals q ≡ q → Victim q critical
  noncritical :
      (i : ℕ)
      → victim q critical ≡ some (i, false)
      → criticals (remove_at i q) ≡ criticals q
      → length (remove_at i q) + 1 ≡ length q
      → length (criticals q) < length q
      → Victim q critical
  oldest :
      victim q critical ≡ some (0, true)
      → critical ≡ true
      → criticals q ≡ q
      → criticals (remove_at 0 q) ≡ tail q
      → length (remove_at 0 q) + 1 ≡ length q
      → Victim q critical

Victim-oldest :
    (q : List Message)
    → 0 < length q
    → criticals (tail q) ≡ tail q
    → (criticals (remove_at 0 q) ≡ tail q) × (length (remove_at 0 q) + 1 ≡ length q)
unfolding remove_at
Victim-oldest [] h c = absurd (omega arith)
Victim-oldest (m ∷ ms) h c = (c, omega arith)

Victim-cases : (q : List Message) (critical : Bool) → 0 < length q → Victim q critical
unfolding victim
Victim-cases q critical h = elim (Option-cases (first_noncritical q)) [
  | inr (i, e) ↦
      let (same, shorter, fewer) = first_noncritical-some q i e in
      noncritical i (rw (e, victim)) same shorter fewer
  | inl e ↦ all_critical critical (first_noncritical-none q e) e
]
  where
    all_critical :
        (b : Bool)
        → (criticals q ≡ q) × (criticals (tail q) ≡ tail q)
        → first_noncritical q ≡ none
        → Victim q b
    all_critical true c e =
        let (rest, shorter) = Victim-oldest q h c.1 in oldest (rw (e, victim)) refl c.0 rest shorter
    all_critical false c e = newcomer (rw (e, victim)) refl c.0

pub criticals-append :
    (ms : List Message) (m : Message)
    → criticals (ms ++ m ∷ []) ≡ (if m.critical then criticals ms ++ m ∷ [] else criticals ms)
criticals-append [] m = refl
criticals-append (x ∷ ms) m = ground (arith, criticals-append ms m)

-- The criticals of a full queue of eight make room by the oldest of them.
abbrev pub without_oldest : List Message → List Message
without_oldest ms = if leb 8 (length ms) then tail ms else ms

module _ {Flash : Type 0} (api : NvsApi Flash) where
  queue-push :
      (now : ℕ) (m : Message) (s : Outbox Flash) → (push api now m s).queue ≡ s.queue ++ m ∷ []
  unfolding push persist
  queue-push now m s = ground arith

  queue-evict :
      (now i : ℕ) (b : Bool) (s : Outbox Flash) → (evict api now i b s).queue ≡ remove_at i s.queue
  unfolding evict persist
  queue-evict now i b s = ground arith

  pub queue-replace :
      (now i : ℕ) (b : Bool) (m : Message) (s : Outbox Flash)
      → (push api now m (evict api now i b s)).queue ≡ remove_at i s.queue ++ m ∷ []
  queue-replace now i b m s = rw (queue-push now m (evict api now i b s), queue-evict now i b s)

  module _ (now : ℕ) (topic payload : Text) (retain critical : Bool) (s : Outbox Flash)
      (named : is_empty topic ≡ false) (short : length payload < 768) where
    enqueue_room :
        length s.queue < 8
        → enqueue_outbound api now topic payload retain critical s
          ≡ (push api now (new_message now topic payload retain critical) s, true)
    unfolding enqueue_outbound
    enqueue_room h = ground arith

    enqueue_refused :
        8 ≤ length s.queue
        → victim s.queue critical ≡ none
        → enqueue_outbound api now topic payload retain critical s ≡ (s, false)
    unfolding enqueue_outbound
    enqueue_refused h v = ground arith

    enqueue_full :
        (i : ℕ) (b : Bool)
        → 8 ≤ length s.queue
        → victim s.queue critical ≡ some (i, b)
        → enqueue_outbound api now topic payload retain critical s ≡ (
          push api now (new_message now topic payload retain critical) (evict api now i b s),
          true,
        )
    unfolding enqueue_outbound
    enqueue_full i b h v = ground arith

    -- A property of the outbox afterwards and of the answer holds, if it does in each case.
    pub enqueue_by {κ} :
        (P : Outbox Flash → Bool → Type κ)
        → let m = new_message now topic payload retain critical in
          length s.queue ≤ 8
          → (length s.queue < 8 → P (push api now m s) true)
          → (length s.queue ≡ 8 → critical ≡ false → criticals s.queue ≡ s.queue → P s false)
          → ((i : ℕ)
              → length s.queue ≡ 8
              → criticals (remove_at i s.queue) ≡ criticals s.queue
              → length (remove_at i s.queue) ≡ 7
              → length (criticals s.queue) < 8
              → P (push api now m (evict api now i false s)) true)
          → (length s.queue ≡ 8
              → critical ≡ true
              → criticals s.queue ≡ s.queue
              → criticals (remove_at 0 s.queue) ≡ tail s.queue
              → length (remove_at 0 s.queue) ≡ 7
              → P (push api now m (evict api now 0 true s)) true)
          → P
              (enqueue_outbound api now topic payload retain critical s).0
              (enqueue_outbound api now topic payload retain critical s).1
    enqueue_by P h in_room refused swapped pushed = elim (Bool-cases (ltb (length s.queue) 8)) [
      | inl room ↦ rw (enqueue_room (ltb→lt _ 8 room)) (in_room (ltb→lt _ 8 room))
      | inr full ↦ at_full (ground arith) (Victim-cases s.queue critical (ground arith))
    ]
      where
        at_full :
            length s.queue ≡ 8
            → Victim s.queue critical
            → P
                (enqueue_outbound api now topic payload retain critical s).0
                (enqueue_outbound api now topic payload retain critical s).1
        at_full full (newcomer v c q) = rw (enqueue_refused (omega arith) v) (refused full c q)
        at_full full (noncritical i v c l f) =
            rw (enqueue_full i false (omega arith) v) (swapped i full c (omega arith) (omega arith))
        at_full full (oldest v c q t l) =
            rw (enqueue_full 0 true (omega arith) v) (pushed full c q t (omega arith))

  -- A message without a topic, or with a payload of 768 bytes or more, is refused, and nothing
  -- changes.
  pub enqueue_unfit :
      (now : ℕ) (topic payload : Text) (retain critical : Bool) (s : Outbox Flash)
      → (is_empty topic ≡ true) ⊎ (768 ≤ length payload)
      → enqueue_outbound api now topic payload retain critical s ≡ (s, false)
  unfolding enqueue_outbound
  enqueue_unfit now topic payload retain critical s h = ground arith

  -- A queue of at most eight entries keeps at most eight, whatever is enqueued.
  pub length-enqueue_outbound :
      (now : ℕ) (topic payload : Text) (retain critical : Bool) (s : Outbox Flash)
      → length s.queue ≤ 8
      → length (enqueue_outbound api now topic payload retain critical s).0.queue ≤ 8
  length-enqueue_outbound now topic payload retain critical s h =
      elim (Bool-cases (is_empty topic)) [
        | inl e ↦ rw (enqueue_unfit now topic payload retain critical s (inl e)) h
        | inr named ↦ elim (Bool-cases (ltb (length payload) 768)) [
          | inr long ↦ rw (enqueue_unfit now topic payload retain critical s (inr (ground arith))) h
          | inl short ↦
              let m = new_message now topic payload retain critical in
              enqueue_by now topic payload retain critical s named (ltb→lt _ 768 short)
                (λ t a. length t.queue ≤ 8) h
                (λ room. rw (queue-push now m s) (omega (arith, length-append s.queue (m ∷ []))))
                (λ full c q. h)
                (λ i full c l f.
                  rw (queue-replace now i false m s)
                    (omega (arith, length-append (remove_at i s.queue) (m ∷ []))))
                (λ full c q t l.
                  rw (queue-replace now 0 true m s)
                    (omega (arith, length-append (remove_at 0 s.queue) (m ∷ []))))
        ]
      ]

  -- A critical message with a topic and a payload below 768 bytes is always accepted. Afterwards
  -- the critical entries are those from before and the new one last; only of eight critical ones
  -- the oldest has given way.
  pub enqueue_critical :
      (now : ℕ) (topic payload : Text) (retain : Bool) (s : Outbox Flash)
      → length s.queue ≤ 8
      → is_empty topic ≡ false
      → length payload < 768
      → let (t, accepted) = enqueue_outbound api now topic payload retain true s in
        (accepted ≡ true)
        × (criticals t.queue
            ≡ without_oldest (criticals s.queue) ++ new_message now topic payload retain true ∷ [])
  enqueue_critical now topic payload retain s h named short =
      let m = new_message now topic payload retain true in
      enqueue_by now topic payload retain true s named short
        (λ t a. (a ≡ true) × (criticals t.queue ≡ without_oldest (criticals s.queue) ++ m ∷ [])) h
        (λ room. (
          refl,
          rw (queue-push now m s)
              (ground (arith, criticals-append s.queue m, length-criticals s.queue)),
        ))
        (λ full c q. cc)
        (λ i full c l f. (
          refl,
          rw (queue-replace now i false m s)
              (ground (arith, criticals-append (remove_at i s.queue) m)),
        ))
        (λ full c q t l. (
          refl,
          rw (queue-replace now 0 true m s)
              (ground (arith, criticals-append (remove_at 0 s.queue) m, length-criticals s.queue)),
        ))

  -- A message that is not critical leaves the critical entries as they are, and with a topic and
  -- a payload below 768 bytes it is refused only by a queue of eight critical entries.
  pub enqueue_noncritical :
      (now : ℕ) (topic payload : Text) (retain : Bool) (s : Outbox Flash)
      → length s.queue ≤ 8
      → is_empty topic ≡ false
      → length payload < 768
      → let (t, accepted) = enqueue_outbound api now topic payload retain false s in
        (criticals t.queue ≡ criticals s.queue) × (accepted ≡ ltb (length (criticals s.queue)) 8)
  enqueue_noncritical now topic payload retain s h named short =
      let m = new_message now topic payload retain false in
      enqueue_by now topic payload retain false s named short
        (λ t a. (criticals t.queue ≡ criticals s.queue) × (a ≡ ltb (length (criticals s.queue)) 8))
        h
        (λ room. (
          rw (queue-push now m s) (criticals-append s.queue m),
          ground (arith, length-criticals s.queue),
        ))
        (λ full c q. (refl, ground arith))
        (λ i full c l f. (
          rw (queue-replace now i false m s)
              (ground (arith, criticals-append (remove_at i s.queue) m)),
          ground arith,
        ))
        (λ full c q t l. cc)
