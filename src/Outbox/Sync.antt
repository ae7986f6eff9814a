-- ===== src/Outbox/Sync.antt =====
-- The flash and the queue in step: what a reboot would load is what the queue holds.
use forge_key.Prelude.{
  ℕ, suc, ◌≤◌, ◌<◌, ◌≡◌, refl, sym, ap, ◌∙◌, Bool, true, false, List, [], ◌∷◌, ◌++◌, map, arith,
  length, All, All-append, Text, Bool-cases, inl, inr, take, subst, length-append, is_empty, tail,
  ltb, ltb→lt, take_all,
}
use forge_key.Outbox.Message.{Message}
use forge_key.Outbox.Flash.{NvsApi, NvsLaws, load_critical_queue}
use forge_key.Outbox.Queue.{
  Outbox, persist, push, evict, remove_at, enqueue_outbound, new_message, pass, retry,
  service_outbound_queue, load, note_sent,
}
use forge_key.Outbox.Priority.{
  criticals, length-criticals, criticals-append, enqueue_by, enqueue_unfit,
}
use forge_key.Outbox.Stored.{restarted, Fits, load-persist}

length-map_restarted : (q : List Message) → length (map restarted q) ≡ length q
length-map_restarted [] = refl
length-map_restarted (m ∷ q) = ap suc (length-map_restarted q)

-- At most eight entries, the critical ones fit the load's buffers, and a load adds just these to
-- the queue that it finds, as far as there is room.
pub record IsSafe {Flash : Type 0} (api : NvsApi Flash) (s : Outbox Flash) : Type 0 where
  pub bounded : length s.queue ≤ 8
  pub fits : All Fits (criticals s.queue)
  pub synced :
      (q : List Message)
      → length q ≤ 8
      → load_critical_queue api s.flash q ≡ take 8 (q ++ map restarted (criticals s.queue))

-- What the rest of the client asks of the outbox.
pub data Call : Type 0 where
  enqueues : (now : ℕ) (topic payload : Text) (retain critical : Bool) → Call
  services : (now : ℕ) (connected : Bool) (wrote : ℕ → Bool) → Call

abbrev pub HasShortTopic : Call → Type 0
HasShortTopic (enqueues now topic payload retain critical) = length topic < 160
HasShortTopic (services now connected wrote) = Unit

module _ {Flash : Type 0} (api : NvsApi Flash) where
  unfoldable pub call : Outbox Flash → Call → Outbox Flash
  call s (enqueues now topic payload retain critical) =
      (enqueue_outbound api now topic payload retain critical s).0
  call s (services now connected wrote) = service_outbound_queue api now connected wrote s

  unfoldable pub calls : Outbox Flash → List Call → Outbox Flash
  calls s [] = s
  calls s (c ∷ cs) = calls (call s c) cs

module _ {Flash : Type 0} (api : NvsApi Flash) (laws : NvsLaws api) where
  persist-IsSafe :
      (now : ℕ) (s : Outbox Flash)
      → length s.queue ≤ 8
      → All Fits (criticals s.queue)
      → IsSafe api (persist api now s)
  unfolding persist
  persist-IsSafe now s h f = record {
    bounded = h;
    fits = f;
    synced = λ q k. load-persist api laws s.queue s.flash q h k f;
  }

  push-IsSafe :
      (now : ℕ) (m : Message) (s : Outbox Flash)
      → length s.queue < 8
      → (m.critical ≡ true → Fits m)
      → IsSafe api s
      → IsSafe api (push api now m s)
  unfolding push
  push-IsSafe now m s room fit v = elim (Bool-cases m.critical) [
    | inl c ↦
        let more = criticals-append s.queue m in
        let more' : criticals (s.queue ++ m ∷ []) ≡ criticals s.queue ++ m ∷ [] =
          ground (arith, more) in
        simp c (
          persist-IsSafe now (record s { queue = s.queue ++ m ∷ [] })
            (omega (arith, length-append s.queue (m ∷ [])))
            (subst (All Fits) (sym more')
              (All-append Fits (criticals s.queue) (m ∷ []) v.fits (fit c, tt))))
    | inr c ↦
        let same : criticals (s.queue ++ m ∷ []) ≡ criticals s.queue =
          ground (arith, criticals-append s.queue m) in
        simp c (record {
          bounded = omega (arith, length-append s.queue (m ∷ []));
          fits = subst (All Fits) (sym same) v.fits;
          synced = λ q k. v.synced q k ∙ ap (λ c. take 8 (q ++ map restarted c)) (sym same);
        })
  ]

  evict-IsSafe :
      (now i : ℕ) (b : Bool) (s : Outbox Flash)
      → length (remove_at i s.queue) ≡ 7
      → All Fits (criticals (remove_at i s.queue))
      → (b ≡ false → criticals (remove_at i s.queue) ≡ criticals s.queue)
      → IsSafe api s
      → IsSafe api (evict api now i b s) × (length (evict api now i b s).queue ≡ 7)
  unfolding evict
  evict-IsSafe now i true s l f same v = (
    persist-IsSafe now (record s { queue = remove_at i s.queue }) (omega arith) f,
    unfold persist in l,
  )
  evict-IsSafe now i false s l f same v = (
    record {
      bounded = omega arith;
      fits = f;
      synced = λ q k. v.synced q k ∙ ap (λ c. take 8 (q ++ map restarted c)) (sym (same refl));
    },
    l,
  )

  All-tail : (ms : List Message) → All Fits ms → All Fits (tail ms)
  All-tail [] h = tt
  All-tail (m ∷ ms) h = h.1

  -- Enqueuing keeps the flash in step, for topics shorter than the load's buffer of 160 bytes.
  pub enqueue_outbound-IsSafe :
      (now : ℕ) (topic payload : Text) (retain critical : Bool) (s : Outbox Flash)
      → length topic < 160
      → IsSafe api s
      → IsSafe api (enqueue_outbound api now topic payload retain critical s).0
  enqueue_outbound-IsSafe now topic payload retain critical s short v =
      elim (Bool-cases (is_empty topic)) [
        | inl e ↦ rw (enqueue_unfit api now topic payload retain critical s (inl e)) v
        | inr named ↦ elim (Bool-cases (ltb (length payload) 768)) [
          | inr long ↦
              rw (enqueue_unfit api now topic payload retain critical s (inr (ground arith))) v
          | inl small ↦ fitting named (ltb→lt _ 768 small)
        ]
      ]
    where
      fitting :
          is_empty topic ≡ false
          → length payload < 768
          → IsSafe api (enqueue_outbound api now topic payload retain critical s).0
      fitting named small =
          let m = new_message now topic payload retain critical in
          let fit : Fits m = record { topic_fits = short; payload_fits = small } in
          enqueue_by api now topic payload retain critical s named small (λ t a. IsSafe api t)
            v.bounded (λ room. push-IsSafe now m s room (λ _. fit) v) (λ full c q. v)
            (λ i full c l f.
              let (safe, seven) =
                evict-IsSafe now i false s l (subst (All Fits) (sym c) v.fits) (λ _. c) v in
              push-IsSafe now m _ (omega arith) (λ _. fit) safe)
            (λ full c q t l.
              let (safe, seven) =
                evict-IsSafe now 0 true s l
                  (subst (All Fits) (sym t) (All-tail s.queue (subst (All Fits) q v.fits)))
                  (λ e. cc) v in
              push-IsSafe now m _ (omega arith) (λ _. fit) safe)

  -- What the flash keeps of two queues is the same.
  abbrev SameStored : List Message → List Message → Type 0
  SameStored xs ys = map restarted (criticals xs) ≡ map restarted (criticals ys)

  pass-criticals :
      (now : ℕ) (wrote : ℕ → Bool) (k : ℕ) (ms : List Message)
      → (pass now wrote k ms).critical_changed ≡ false
      → SameStored (pass now wrote k ms).kept ms
  unfolding pass retry
  pass-criticals now wrote k [] h = refl
  pass-criticals now wrote k (m ∷ ms) h =
      ground (arith, pass-criticals now wrote k ms, pass-criticals now wrote (suc k) ms)

  pass-Fits :
      (now : ℕ) (wrote : ℕ → Bool) (k : ℕ) (ms : List Message)
      → All Fits (criticals ms)
      → All Fits (criticals (pass now wrote k ms).kept)
        × (length (pass now wrote k ms).kept ≤ length ms)
  unfolding pass retry
  pass-Fits now wrote k [] h = (tt, omega arith)
  pass-Fits now wrote k (m ∷ ms) h =
      ground (arith, pass-Fits now wrote k ms, pass-Fits now wrote (suc k) ms)

  pub service_outbound_queue-IsSafe :
      (now : ℕ) (connected : Bool) (wrote : ℕ → Bool) (s : Outbox Flash)
      → IsSafe api s
      → IsSafe api (service_outbound_queue api now connected wrote s)
  unfolding service_outbound_queue
  service_outbound_queue-IsSafe now false wrote s v = v
  service_outbound_queue-IsSafe now true wrote s v =
      let p = pass now wrote 0 s.queue in
      let (fits, shorter) = pass-Fits now wrote 0 s.queue v.fits in
      elim (Bool-cases p.critical_changed) [
        | inl changed ↦ simp changed (
            persist-IsSafe now
              (record s {
                queue = p.kept;
                last_publish_ms = (note_sent now p.sent (s.last_publish_ms, s.watchdog)).0;
                watchdog = (note_sent now p.sent (s.last_publish_ms, s.watchdog)).1;
              })
              (omega (arith, v.bounded)) fits)
        | inr same ↦
            let stored = pass-criticals now wrote 0 s.queue same in
            simp same (record {
              bounded = omega (arith, v.bounded);
              fits = fits;
              synced = λ q k. v.synced q k ∙ ap (λ c. take 8 (q ++ c)) (sym stored);
            })
      ]

  call-IsSafe :
      (s : Outbox Flash) (c : Call) → HasShortTopic c → IsSafe api s → IsSafe api (call api s c)
  unfolding call
  call-IsSafe s (enqueues now topic payload retain critical) short v =
      enqueue_outbound-IsSafe now topic payload retain critical s short v
  call-IsSafe s (services now connected wrote) short v =
      service_outbound_queue-IsSafe now connected wrote s v

  -- Any sequence of enqueues and services, with topics shorter than 160 bytes and a flash that takes
  -- its writes, keeps a safe outbox safe: at most eight entries, critical ones that fit the load's
  -- buffers, and a flash from which a load adds just these, as far as there is room.
  pub calls-IsSafe :
      (s : Outbox Flash) (cs : List Call)
      → All HasShortTopic cs
      → IsSafe api s
      → IsSafe api (calls api s cs)
  unfolding calls
  calls-IsSafe s [] short v = v
  calls-IsSafe s (c ∷ cs) short v =
      calls-IsSafe (call api s c) cs short.1 (call-IsSafe s c short.0 v)

  -- A power cut after any sequence of enqueues and services loses no critical message: the boot,
  -- which loads into an empty queue, restores the critical entries in their order, due at once.
  -- The outbox was safe before, as an empty one over a blank flash is, the topics are shorter than
  -- 160 bytes, and the flash takes its writes.
  pub reboot_restores :
      (s : Outbox Flash) (cs : List Call)
      → All HasShortTopic cs
      → IsSafe api s
      → (load api (record (calls api s cs) { queue = [] })).queue
        ≡ map restarted (criticals (calls api s cs).queue)
  unfolding load
  reboot_restores s cs short v =
      let safe = calls-IsSafe s cs short v in
      safe.synced [] (omega arith)
      ∙ take_all 8 _ (
          omega (
            arith,
            safe.bounded,
            length-map_restarted (criticals (calls api s cs).queue),
            length-criticals (calls api s cs).queue,
          ))

  -- After any calls on a safe outbox, with topics shorter than 160 bytes and a flash that takes its
  -- writes, `restart()` loads the flash into a queue that still holds the same messages: each
  -- critical one is queued a second time, as far as there is room.
  pub restart_doubles :
      (s : Outbox Flash) (cs : List Call)
      → All HasShortTopic cs
      → IsSafe api s
      → (load api (calls api s cs)).queue
        ≡ take 8 ((calls api s cs).queue ++ map restarted (criticals (calls api s cs).queue))
  unfolding load
  restart_doubles s cs short v =
      let safe = calls-IsSafe s cs short v in safe.synced (calls api s cs).queue safe.bounded
