-- ===== src/Outbox/Examples.antt =====
-- The outbox over a flash of two functions.
use forge_key.Prelude.{
  ℕ, ◌≡◌, ◌≢◌, refl, sym, true, false, Option, none, some, List, [], ◌∷◌, ◌++◌, arith, length, take,
  map, Text, codes, text_eq, text_eq-eq, text_eq_self, if◌then◌else◌, ◌==◌, ltb, lt→ltb, All,
  Bool-cases, inl, inr,
}
use forge_key.Watchdog.State.{initial}
use forge_key.Outbox.Message.{Message}
use forge_key.Outbox.Flash.{NvsApi, NvsLaws, load_critical_queue}
use forge_key.Outbox.Queue.{Outbox, new_message, not_yet, service_outbound_queue, load}
use forge_key.Outbox.Priority.{criticals}
use forge_key.Outbox.Stored.{restarted, Fits, take-append_fit}
use forge_key.Outbox.Service.{due, written, body, Merge, service_accounts}
use forge_key.Outbox.Sync.{
  IsSafe, Call, enqueues, services, HasShortTopic, calls, reboot_restores, restart_doubles,
}

pub record Memory : Type 0 where
  pub strings : Text → Option Text
  pub bytes : Text → Option ℕ

abbrev pub fitting : ℕ → Option Text → Option Text
fitting size none = none
fitting size (some v) = if ltb (length v) size then some v else none

abbrev pub memory_api : NvsApi Memory
memory_api = record {
  opens_rw = λ f. true;
  opens_ro = λ f. true;
  erase_all = λ f. record { strings = λ k. none; bytes = λ k. none };
  set_str = λ k v f. record f { strings = λ j. if text_eq j k then some v else f.strings j };
  set_u8 = λ k n f. record f { bytes = λ j. if text_eq j k then some n else f.bytes j };
  commit = λ f. f;
  get_str = λ k size f. fitting size (f.strings k);
  get_u8 = λ k f. f.bytes k;
}

text_eq-ne : (a b : Text) → a ≢ b → text_eq a b ≡ false
text_eq-ne a b h = elim (Bool-cases (text_eq a b)) [
  | inl e ↦ absurd (h (text_eq-eq a b e))
  | inr e ↦ e
]

pub memory_laws : NvsLaws memory_api
memory_laws = record {
  opens_rw_lem = λ f. refl;
  opens_ro_lem = λ f. refl;
  get_str-set_str = λ k v size f h. rw (text_eq_self k, lt→ltb (length v) size h);
  get_str-set_str_ne = λ j k v size f h. rw (text_eq-ne j k h);
  get_str-set_u8 = λ j k n size f h. refl;
  get_u8-set_u8 = λ k n f. rw (text_eq_self k);
  get_u8-set_u8_ne = λ j k n f h. rw (text_eq-ne j k h);
  get_u8-set_str = λ j k v f h. refl;
  get_str-commit = λ k size f. refl;
  get_u8-commit = λ k f. refl;
}

abbrev pub erased : Memory
erased = record { strings = λ k. none; bytes = λ k. none }

abbrev empty_outbox : Outbox Memory
empty_outbox = record { queue = []; last_publish_ms = 0; watchdog = initial; flash = erased }

empty_outbox-IsSafe : IsSafe memory_api empty_outbox
unfolding load_critical_queue
empty_outbox-IsSafe = record {
  bounded = omega arith;
  fits = tt;
  synced = λ q h. sym (take-append_fit 8 q h);
}

abbrev event : Message
event = new_message 10 (codes "lock/event") (codes "opened") false true

abbrev reading : Message
reading = new_message 20 (codes "temperature") (codes "21") true false

abbrev full : Outbox Memory
full = record empty_outbox {
  queue = event ∷ reading ∷ event ∷ event ∷ event ∷ event ∷ event ∷ event ∷ [];
}

abbrev script : List Call
script =
    enqueues 10 (codes "lock/event") (codes "opened") false true
    ∷ enqueues 20 (codes "temperature") (codes "21") true false
    ∷ services 30 true (λ k. false)
    ∷ enqueues 40 (codes "lock/event") (codes "closed") false true
    ∷ []

script-HasShortTopic : All HasShortTopic script
script-HasShortTopic = (omega arith, (omega arith, (tt, (omega arith, tt))))

event-Fits : Fits event
event-Fits = record { topic_fits = omega arith; payload_fits = omega arith }

service_accounts_example :
    let t = service_outbound_queue memory_api 30 true (λ k. k == 0) full in
    (true ≡ true
      → Merge
          (map body t.queue)
          (map body (written (λ k. k == 0) 0 (due 30 full.queue)))
          (map body full.queue)
        × All (λ m. not_yet 30 m ≡ true) t.queue)
    × (true ≡ false → t ≡ full)
service_accounts_example = service_accounts memory_api 30 true (λ k. k == 0) full (omega arith)

reboot_restores_example :
    (load memory_api (record (calls memory_api empty_outbox script) { queue = [] })).queue
    ≡ map restarted (criticals (calls memory_api empty_outbox script).queue)
reboot_restores_example =
    reboot_restores memory_api memory_laws empty_outbox script script-HasShortTopic
      empty_outbox-IsSafe

restart_doubles_example :
    (load memory_api (calls memory_api empty_outbox script)).queue
    ≡ take 8 (
        (calls memory_api empty_outbox script).queue
        ++ map restarted (criticals (calls memory_api empty_outbox script).queue))
restart_doubles_example =
    restart_doubles memory_api memory_laws empty_outbox script script-HasShortTopic
      empty_outbox-IsSafe
