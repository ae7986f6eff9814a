-- ===== src/Outbox/Flash.antt =====
-- The flash namespace of the queue: `persistCriticalQueue` and `loadCriticalQueue`.
use forge_key.Prelude.{
  ℕ, zero, suc, ◌+◌, ◌/◌, ◌%◌, ◌<◌, ◌≡◌, ◌≢◌, Bool, true, not, Option, none, some, List, [], ◌∷◌,
  ◌++◌, ltb, ◌==◌, if◌then◌else◌, length, Text, codes,
}
use forge_key.Outbox.Message.{Message, outbound_queue_size, payload_limit, topic_limit}

-- The calls of the NVS library on one namespace, over its stored state. A `get_str` is given the
-- size of the buffer that it fills.
pub record NvsApi (Flash : Type 0) : Type 0 where
  pub opens_rw : Flash → Bool
  pub opens_ro : Flash → Bool
  pub erase_all : Flash → Flash
  pub set_str : Text → Text → Flash → Flash
  pub set_u8 : Text → ℕ → Flash → Flash
  pub commit : Flash → Flash
  pub get_str : Text → ℕ → Flash → Option Text
  pub get_u8 : Text → Flash → Option ℕ

-- What the library documents of a namespace that opens and takes its writes: a value is read back
-- under its key if the buffer holds it and its terminator, and no write touches another key.
pub record NvsLaws {Flash : Type 0} (api : NvsApi Flash) : Type 0 where
  pub opens_rw_lem : (f : Flash) → api.opens_rw f ≡ true
  pub opens_ro_lem : (f : Flash) → api.opens_ro f ≡ true
  pub get_str-set_str :
      (k v : Text) (size : ℕ) (f : Flash)
      → length v < size
      → api.get_str k size (api.set_str k v f) ≡ some v
  pub get_str-set_str_ne :
      (j k v : Text) (size : ℕ) (f : Flash)
      → j ≢ k
      → api.get_str j size (api.set_str k v f) ≡ api.get_str j size f
  pub get_str-set_u8 :
      (j k : Text) (n size : ℕ) (f : Flash)
      → j ≢ k
      → api.get_str j size (api.set_u8 k n f) ≡ api.get_str j size f
  pub get_u8-set_u8 : (k : Text) (n : ℕ) (f : Flash) → api.get_u8 k (api.set_u8 k n f) ≡ some n
  pub get_u8-set_u8_ne :
      (j k : Text) (n : ℕ) (f : Flash) → j ≢ k → api.get_u8 j (api.set_u8 k n f) ≡ api.get_u8 j f
  pub get_u8-set_str :
      (j k v : Text) (f : Flash) → j ≢ k → api.get_u8 j (api.set_str k v f) ≡ api.get_u8 j f
  pub get_str-commit :
      (k : Text) (size : ℕ) (f : Flash) → api.get_str k size (api.commit f) ≡ api.get_str k size f
  pub get_u8-commit : (k : Text) (f : Flash) → api.get_u8 k (api.commit f) ≡ api.get_u8 k f

-- `%u` of a uint8_t
pub decimal : ℕ → Text
decimal n =
    if ltb n 10
    then (48 + n) ∷ []
    else if ltb n 100
    then (48 + n / 10) ∷ (48 + n % 10) ∷ []
    else (48 + n / 100) ∷ (48 + n / 10 % 10) ∷ (48 + n % 10) ∷ []

-- snprintf(key, sizeof(key), "t%u", i), and so with p and r
unfoldable pub key : ℕ → ℕ → Text
unfolding decimal
key letter i = letter ∷ decimal i

abbrev pub count_key : Text
count_key = codes "count"

module _ {Flash : Type 0} (api : NvsApi Flash) where
  -- The three values of one stored message.
  unfoldable pub write_entry : ℕ → Message → Flash → Flash
  write_entry i m f =
      api.set_u8 (key b'r' i) (if m.retain then 1 else 0)
        (api.set_str (key b'p' i) m.payload (api.set_str (key b't' i) m.topic f))

  -- The loop of `persistCriticalQueue`: what is stored, and `persisted`.
  unfoldable pub write_entries : ℕ → List Message → Flash → Flash × ℕ
  write_entries persisted [] f = (f, persisted)
  write_entries persisted (m ∷ ms) f =
      let skip = write_entries persisted ms f in
      let store = write_entries (suc persisted) ms (write_entry persisted m f) in
      if ltb persisted outbound_queue_size
      then (if m.critical then store else skip)
      else (f, persisted)

  unfoldable pub persist_critical_queue : List Message → Flash → Flash
  persist_critical_queue queue f =
      if api.opens_rw f
      then (let (stored, persisted) = write_entries 0 queue (api.erase_all f) in
          api.commit (api.set_u8 count_key persisted stored))
      else f

  abbrev restored : Text → Text → ℕ → Message
  restored topic payload retain = record {
    topic = topic;
    payload = payload;
    retain = not (retain == 0);
    critical = true;
    next_attempt_ms = 0;
    attempts = 0;
  }

  -- One round of the loading loop; `none` where it says `continue`.
  unfoldable pub read_entry : ℕ → Flash → Option Message
  read_entry i f = elim (api.get_str (key b't' i) topic_limit f) [
    | none ↦ none
    | some topic ↦ elim (api.get_str (key b'p' i) payload_limit f) [
      | none ↦ none
      | some payload ↦ elim (api.get_u8 (key b'r' i) f) [
        | none ↦ some (restored topic payload 0)
        | some retain ↦ some (restored topic payload retain)
      ]
    ]
  ]

  abbrev pub add_entry : Option Message → List Message → List Message
  add_entry none queue = queue
  add_entry (some m) queue = queue ++ m ∷ []

  unfoldable pub load_entries : ℕ → ℕ → Flash → List Message → List Message
  load_entries zero i f queue = queue
  load_entries (suc rounds) i f queue =
      let rest = load_entries rounds (suc i) f (add_entry (read_entry i f) queue) in
      if ltb (length queue) outbound_queue_size then rest else queue

  -- The queue in memory is kept, and what is stored is added to it.
  unfoldable pub load_critical_queue : Flash → List Message → List Message
  load_critical_queue f queue =
      if api.opens_ro f
      then elim (api.get_u8 count_key f) [
        | none ↦ queue
        | some count ↦
            load_entries (if ltb outbound_queue_size count then outbound_queue_size else count) 0 f
              queue
      ]
      else queue
