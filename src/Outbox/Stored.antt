-- ===== src/Outbox/Stored.antt =====
-- What `persistCriticalQueue` writes, `loadCriticalQueue` reads back.
use mathlib.Core.List.{append_assoc}
use forge_key.Prelude.{
  ltb→lt, subst, ◌⊎◌, ℕ, zero, suc, ◌+◌, ◌≤◌, ◌<◌, ◌≡◌, ◌≢◌, refl, sym, ap, ◌∙◌, true, false, List,
  [], ◌∷◌, ◌++◌, map, arith, ltb, lt→ltb, length, All, take, some, Bool-cases, inl, inr,
  if◌then◌else◌, length-append,
}
use forge_key.Outbox.Message.{Message}
use forge_key.Outbox.Flash.{
  NvsApi, NvsLaws, key, count_key, write_entry, write_entries, persist_critical_queue, read_entry,
  load_entries, load_critical_queue,
}
use forge_key.Outbox.Priority.{criticals, length-criticals}

key-ne_index : (a b i j : ℕ) → i < 10 → j < 10 → i ≢ j → key a i ≢ key b j
unfolding key
key-ne_index a b i j hi hj h e = h (ground arith)

key-ne_letter : (a b i j : ℕ) → a ≢ b → key a i ≢ key b j
unfolding key
key-ne_letter a b i j h e = h (ground arith)

key-ne-count_key : (a i : ℕ) → a ≢ b'c' → key a i ≢ count_key
unfolding key
key-ne-count_key a i h e = h (ground arith)

-- A message as a reboot restores it.
abbrev pub restarted : Message → Message
restarted m = record m { critical = true; next_attempt_ms = 0; attempts = 0 }

-- What fits the buffers that the load reads into.
pub record Fits (m : Message) : Type 0 where
  pub topic_fits : length m.topic < 160
  pub payload_fits : length m.payload < 768

module _ {Flash : Type 0} (api : NvsApi Flash) (laws : NvsLaws api) where
  -- Two stored states that agree on one entry.
  record SameEntry (i : ℕ) (f g : Flash) : Type 0 where
    topics : (size : ℕ) → api.get_str (key b't' i) size f ≡ api.get_str (key b't' i) size g
    payloads : (size : ℕ) → api.get_str (key b'p' i) size f ≡ api.get_str (key b'p' i) size g
    retains : api.get_u8 (key b'r' i) f ≡ api.get_u8 (key b'r' i) g

  read_entry-SameEntry :
      (i : ℕ) (f g : Flash) → SameEntry i f g → read_entry api i f ≡ read_entry api i g
  unfolding read_entry
  read_entry-SameEntry i f g h = ground (arith, h.topics 160, h.payloads 768, h.retains)

  SameEntry-refl : (i : ℕ) (f : Flash) → SameEntry i f f
  SameEntry-refl i f = record { topics = λ size. refl; payloads = λ size. refl; retains = refl }

  SameEntry-trans : (i : ℕ) (f g h : Flash) → SameEntry i f g → SameEntry i g h → SameEntry i f h
  SameEntry-trans i f g h p q = record {
    topics = λ size. p.topics size ∙ q.topics size;
    payloads = λ size. p.payloads size ∙ q.payloads size;
    retains = p.retains ∙ q.retains;
  }

  write_entry-SameEntry :
      (i j : ℕ) (m : Message) (f : Flash)
      → i < 10
      → j < 10
      → i ≢ j
      → SameEntry i (write_entry api j m f) f
  unfolding write_entry
  write_entry-SameEntry i j m f hi hj ne = record {
    topics = λ size. text b't' size;
    payloads = λ size. text b'p' size;
    retains = byte;
  }
    where
      other : (a b : ℕ) → key a i ≢ key b j
      other a b = key-ne_index a b i j hi hj ne

      text :
          (a size : ℕ)
          → api.get_str (key a i) size (write_entry api j m f) ≡ api.get_str (key a i) size f
      text a size =
          laws.get_str-set_u8 _ _ _ size _ (other a b'r')
          ∙ laws.get_str-set_str_ne _ _ _ size _ (other a b'p')
          ∙ laws.get_str-set_str_ne _ _ _ size _ (other a b't')

      byte : api.get_u8 (key b'r' i) (write_entry api j m f) ≡ api.get_u8 (key b'r' i) f
      byte =
          laws.get_u8-set_u8_ne _ _ _ _ (other b'r' b'r')
          ∙ laws.get_u8-set_str _ _ _ _ (other b'r' b'p')
          ∙ laws.get_u8-set_str _ _ _ _ (other b'r' b't')

  -- An entry that was written reads back as a reboot restores it.
  read_entry-write_entry :
      (i : ℕ) (m : Message) (f : Flash)
      → m.critical ≡ true
      → Fits m
      → read_entry api i (write_entry api i m f) ≡ some (restarted m)
  unfolding read_entry write_entry
  read_entry-write_entry i m f c fits = ground (arith, topic, payload, retain)
    where
      f1 : Flash
      f1 = api.set_str (key b't' i) m.topic f

      f2 : Flash
      f2 = api.set_str (key b'p' i) m.payload f1

      flag : ℕ
      flag = if m.retain then 1 else 0

      topic : api.get_str (key b't' i) 160 (api.set_u8 (key b'r' i) flag f2) ≡ some m.topic
      topic =
          laws.get_str-set_u8 _ _ _ 160 _ (key-ne_letter b't' b'r' i i (omega arith))
          ∙ laws.get_str-set_str_ne _ _ _ 160 _ (key-ne_letter b't' b'p' i i (omega arith))
          ∙ laws.get_str-set_str _ _ 160 _ fits.topic_fits

      payload : api.get_str (key b'p' i) 768 (api.set_u8 (key b'r' i) flag f2) ≡ some m.payload
      payload =
          laws.get_str-set_u8 _ _ _ 768 _ (key-ne_letter b'p' b'r' i i (omega arith))
          ∙ laws.get_str-set_str _ _ 768 _ fits.payload_fits

      retain : api.get_u8 (key b'r' i) (api.set_u8 (key b'r' i) flag f2) ≡ some flag
      retain = laws.get_u8-set_u8 _ _ _

  write_entries-SameEntry :
      (ms : List Message) (i p : ℕ) (f : Flash)
      → i < p
      → p + length ms ≤ 8
      → SameEntry i (write_entries api p ms f).0 f
  unfolding write_entries
  write_entries-SameEntry [] i p f h room = SameEntry-refl i f
  write_entries-SameEntry (m ∷ ms) i p f h room =
      let fits : ltb p 8 ≡ true = lt→ltb p 8 (omega arith) in
      elim (Bool-cases m.critical) [
        | inr c ↦ simp (fits, c) (write_entries-SameEntry ms i p f h (omega arith))
        | inl c ↦
            simp (fits, c)
              (SameEntry-trans i _ _ _
                (write_entries-SameEntry ms i (suc p) (write_entry api p m f) (omega arith)
                  (omega arith))
                (write_entry-SameEntry i p m f (omega arith) (omega arith) (omega arith)))
      ]

  -- `persisted` counts the critical messages.
  write_entries-count :
      (ms : List Message) (p : ℕ) (f : Flash)
      → p + length ms ≤ 8
      → (write_entries api p ms f).1 ≡ p + length (criticals ms)
  unfolding write_entries
  write_entries-count [] p f room = omega arith
  write_entries-count (m ∷ ms) p f room =
      ground
        (arith, write_entries-count ms p f, write_entries-count ms (suc p) (write_entry api p m f))

-- A list that fits is its own prefix, and one that fills the room ends it.
pub take-append_fit : (n : ℕ) (q : List Message) → length q ≤ n → take n (q ++ []) ≡ q
take-append_fit zero [] h = refl
take-append_fit zero (x ∷ q) h = absurd (omega arith)
take-append_fit (suc n) [] h = refl
take-append_fit (suc n) (x ∷ q) h = ap (◌∷◌ x) (take-append_fit n q (omega arith))

take-append_full : (n : ℕ) (q r : List Message) → length q ≡ n → take n (q ++ r) ≡ q
take-append_full zero [] r h = refl
take-append_full zero (x ∷ q) r h = absurd (omega arith)
take-append_full (suc n) [] r h = absurd (omega arith)
take-append_full (suc n) (x ∷ q) r h = ap (◌∷◌ x) (take-append_full n q r (omega arith))

criticals-cons :
    (m : Message) (ms : List Message) → m.critical ≡ true → criticals (m ∷ ms) ≡ m ∷ criticals ms
criticals-cons m ms c = ground arith

criticals-cons_skip :
    (m : Message) (ms : List Message) → m.critical ≡ false → criticals (m ∷ ms) ≡ criticals ms
criticals-cons_skip m ms c = ground arith

module _ {Flash : Type 0} (api : NvsApi Flash) (laws : NvsLaws api) where
  write_entries-cons :
      (m : Message) (ms : List Message) (p : ℕ) (f : Flash)
      → p < 8
      → m.critical ≡ true
      → write_entries api p (m ∷ ms) f ≡ write_entries api (suc p) ms (write_entry api p m f)
  unfolding write_entries
  write_entries-cons m ms p f h c = simp (lt→ltb p 8 h, c)

  write_entries-cons_skip :
      (m : Message) (ms : List Message) (p : ℕ) (f : Flash)
      → p < 8
      → m.critical ≡ false
      → write_entries api p (m ∷ ms) f ≡ write_entries api p ms f
  unfolding write_entries
  write_entries-cons_skip m ms p f h c = simp (lt→ltb p 8 h, c)

  load_entries-suc :
      (n p : ℕ) (g : Flash) (q : List Message) (m : Message)
      → length q ≤ 8
      → read_entry api p g ≡ some m
      → ((length q < 8)
          × (load_entries api (suc n) p g q ≡ load_entries api n (suc p) g (q ++ m ∷ [])))
        ⊎ ((length q ≡ 8) × (load_entries api (suc n) p g q ≡ q))
  unfolding load_entries
  load_entries-suc n p g q m h e = elim (Bool-cases (ltb (length q) 8)) [
    | inl room ↦ inl (ltb→lt _ 8 room, rw (room, e))
    | inr full ↦ inr (ground arith, rw full)
  ]

  -- Reading back the entries that were written, from any state that agrees with what was written.
  load-write_entries :
      (ms : List Message) (p : ℕ) (f g : Flash) (q : List Message)
      → p + length ms ≤ 8
      → length q ≤ 8
      → All Fits (criticals ms)
      → ((i : ℕ) → SameEntry api laws i g (write_entries api p ms f).0)
      → load_entries api (length (criticals ms)) p g q ≡ take 8 (q ++ map restarted (criticals ms))
  unfolding load_entries
  load-write_entries [] p f g q room fit fits same = sym (take-append_fit 8 q fit)
  load-write_entries (m ∷ ms) p f g q room fit fits same = elim (Bool-cases m.critical) [
    | inr c ↦
        let skipped = criticals-cons_skip m ms c in
        rw skipped (
          load-write_entries ms p f g q (omega arith) fit (subst (All Fits) skipped fits) (λ i.
            subst (λ t. SameEntry api laws i g t.0)
              (write_entries-cons_skip m ms p f (omega arith) c) (same i)))
    | inl c ↦
        let taken = criticals-cons m ms c in
        let stored = write_entries-cons m ms p f (omega arith) c in
        let fits' : All Fits (m ∷ criticals ms) = subst (All Fits) taken fits in
        let same' : (i : ℕ)
            → SameEntry api laws i g (write_entries api (suc p) ms (write_entry api p m f)).0 =
          λ i. subst (λ t. SameEntry api laws i g t.0) stored (same i) in
        let read : read_entry api p g ≡ some (restarted m) =
          read_entry-SameEntry api laws p _ _ (
            SameEntry-trans api laws p _ _ _ (same' p)
              (write_entries-SameEntry api laws ms p (suc p) _ (omega arith) (omega arith)))
          ∙ read_entry-write_entry api laws p m f c fits'.0 in
        rw taken (elim (load_entries-suc (length (criticals ms)) p g q (restarted m) fit read) [
          | inr (full, e) ↦ e ∙ sym (take-append_full 8 q _ full)
          | inl (space, e) ↦
              e
              ∙ load-write_entries ms (suc p) (write_entry api p m f) g (q ++ restarted m ∷ [])
                  (omega arith) (omega (arith, length-append q (restarted m ∷ []))) fits'.1 same'
              ∙ ap (take 8) (append_assoc q (restarted m ∷ []) (map restarted (criticals ms)))
        ])
  ]

  abbrev finished : List Message → Flash → Flash
  finished ms f =
      let (stored, persisted) = write_entries api 0 ms (api.erase_all f) in
      api.commit (api.set_u8 count_key persisted stored)

  persist_critical_queue-opens :
      (ms : List Message) (f : Flash) → persist_critical_queue api ms f ≡ finished ms f
  unfolding persist_critical_queue
  persist_critical_queue-opens ms f = rw (laws.opens_rw_lem f)

  finished-SameEntry :
      (ms : List Message) (f : Flash) (i : ℕ)
      → SameEntry api laws i (finished ms f) (write_entries api 0 ms (api.erase_all f)).0
  finished-SameEntry ms f i = record {
    topics = λ size.
        laws.get_str-commit _ size _
        ∙ laws.get_str-set_u8 _ _ _ size _ (key-ne-count_key b't' i (omega arith));
    payloads = λ size.
        laws.get_str-commit _ size _
        ∙ laws.get_str-set_u8 _ _ _ size _ (key-ne-count_key b'p' i (omega arith));
    retains =
        laws.get_u8-commit _ _
        ∙ laws.get_u8-set_u8_ne _ _ _ _ (key-ne-count_key b'r' i (omega arith));
  }

  load_critical_queue-opens :
      (f : Flash) (q : List Message) (n : ℕ)
      → api.get_u8 count_key f ≡ some n
      → n ≤ 8
      → load_critical_queue api f q ≡ load_entries api n 0 f q
  unfolding load_critical_queue
  load_critical_queue-opens f q n e h = ground (arith, laws.opens_ro_lem f)

  -- What is persisted of a queue of at most eight entries, a load adds to the queue in memory: the
  -- critical entries in their order, due at once, as far as there is room. The critical entries
  -- fit the load's buffers, and the flash takes its writes.
  pub load-persist :
      (ms : List Message) (f : Flash) (q : List Message)
      → length ms ≤ 8
      → length q ≤ 8
      → All Fits (criticals ms)
      → load_critical_queue api (persist_critical_queue api ms f) q
        ≡ take 8 (q ++ map restarted (criticals ms))
  load-persist ms f q hm hq fits =
      let count = write_entries-count api laws ms 0 (api.erase_all f) (omega arith) in
      let stored : api.get_u8 count_key (finished ms f) ≡ some (length (criticals ms)) =
        laws.get_u8-commit _ _ ∙ laws.get_u8-set_u8 _ _ _ ∙ ap some (omega (arith, count)) in
      rw (persist_critical_queue-opens ms f) (
        load_critical_queue-opens _ q _ stored (omega (arith, length-criticals ms))
        ∙ load-write_entries ms 0 (api.erase_all f) _ q (omega arith) hq fits
            (finished-SameEntry ms f))
