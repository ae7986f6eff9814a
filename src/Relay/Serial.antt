-- ===== src/Relay/Serial.antt =====
-- The serial line of the meter: how bytes become packets.
use forge_key.Prelude.{
  ℕ, ◌+◌, ◌<◌, ◌≡◌, ◌≢◌, refl, sym, ap, ◌∙◌, true, false, ◌&&◌, List, [], ◌∷◌, ◌++◌, arith, ltb,
  ◌==◌, length, All, u32, elapsed, ◌⊎◌, inl, inr, length-append, subst,
}
use mathlib.Core.List.{append_assoc}
use forge_key.Relay.Meter.{
  Sample, Meter, parse_packet, receive, receive_all, service_meter_serial, give_up,
}
use forge_key.Relay.Frames.{IsSendable, frame, packet_sample-frame, validate_checksum-frame}

-- An empty buffer.
abbrev pub emptied : Meter → Meter
emptied m = record m { buffer = []; rx_start_ms = 0 }

receive-more :
    (now b : ℕ) (m : Meter)
    → 0 < length m.buffer
    → length m.buffer < 22
    → receive now b m ≡ record m { buffer = m.buffer ++ b ∷ [] }
unfolding receive
receive-more now b m h k = ground (arith, length-append m.buffer (b ∷ []))

parse_packet-emptied :
    (now : ℕ) (p q : List ℕ) (m : Meter)
    → emptied (parse_packet now p (record m { buffer = q })) ≡ parse_packet now p (emptied m)
unfolding parse_packet
parse_packet-emptied now p q m = ground arith

receive-last :
    (now b : ℕ) (m : Meter)
    → length m.buffer ≡ 22
    → receive now b m ≡ parse_packet now (m.buffer ++ b ∷ []) (emptied m)
unfolding receive
receive-last now b m h =
    let filled = m.buffer ++ b ∷ [] in
    let full : (length filled == 23) ≡ true = ground (arith, length-append m.buffer (b ∷ [])) in
    let open_ : (length m.buffer == 0) ≡ false = ground arith in
    rw (full, open_) (parse_packet-emptied now filled filled m)

-- The bytes that complete a packet.
receive_all-fill :
    (now : ℕ) (bs : List ℕ) (m : Meter)
    → 0 < length m.buffer
    → 0 < length bs
    → length m.buffer + length bs ≡ 23
    → receive_all now bs m ≡ parse_packet now (m.buffer ++ bs) (emptied m)
unfolding receive_all
receive_all-fill now [] m h k e = absurd (omega arith)
receive_all-fill now (b ∷ []) m h k e = receive-last now b m (omega arith)
receive_all-fill now (b ∷ d ∷ bs) m h k e =
    let grown = receive-more now b m h (omega arith) in
    let long = length-append m.buffer (b ∷ []) in
    rw grown (
      receive_all-fill now (d ∷ bs) (record m { buffer = m.buffer ++ b ∷ [] }) (omega arith)
        (omega arith) (omega arith)
      ∙ ap (λ p. parse_packet now p (emptied m)) (append_assoc m.buffer (b ∷ []) (d ∷ bs)))

receive-first :
    (now : ℕ) (m : Meter)
    → m.buffer ≡ []
    → receive now 85 m ≡ record m { buffer = 85 ∷ []; rx_start_ms = now }
unfolding receive
receive-first now m e = simp e refl

-- A whole packet, received into an empty buffer, is parsed and leaves the buffer empty.
receive_all-packet :
    (now : ℕ) (p : List ℕ) (m : Meter)
    → m.buffer ≡ []
    → length p ≡ 22
    → receive_all now (85 ∷ p) m ≡ parse_packet now (85 ∷ p) (emptied m)
unfolding receive_all
receive_all-packet now p m e h = rw (receive-first now m e) (
    receive_all-fill now p (record m { buffer = 85 ∷ []; rx_start_ms = now }) (omega arith)
      (omega arith) (omega arith))

receive_all-append :
    (now : ℕ) (xs ys : List ℕ) (m : Meter)
    → receive_all now (xs ++ ys) m ≡ receive_all now ys (receive_all now xs m)
unfolding receive_all
receive_all-append now [] ys m = refl
receive_all-append now (x ∷ xs) ys m = receive_all-append now xs ys (receive now x m)

-- Bytes that no packet can begin with.
abbrev pub IsJunk : List ℕ → Type 0
IsJunk = All (λ b. b ≢ 85)

-- What junk and timeouts leave alone: the buffer stays empty, and the counts of samples and of
-- checksum errors stay as they were.
record IsIdle (m t : Meter) : Type 0 where
  no_bytes : t.buffer ≡ []
  same_samples : t.state.samples ≡ m.state.samples
  same_errors : t.state.checksum_errors ≡ m.state.checksum_errors

receive-IsIdle : (now b : ℕ) (m t : Meter) → IsIdle m t → b ≢ 85 → IsIdle m (receive now b t)
unfolding receive
receive-IsIdle now b m t h ne =
    let other : (b == 85) ≡ false = ground arith in
    simp (h.no_bytes, other)
      (record { no_bytes = refl; same_samples = h.same_samples; same_errors = h.same_errors })

receive_all-IsIdle :
    (now : ℕ) (junk : List ℕ) (m t : Meter)
    → IsIdle m t
    → IsJunk junk
    → IsIdle m (receive_all now junk t)
unfolding receive_all
receive_all-IsIdle now [] m t h j = h
receive_all-IsIdle now (b ∷ bs) m t h j =
    receive_all-IsIdle now bs m (receive now b t) (receive-IsIdle now b m t h j.0) j.1

-- Nothing of a packet is waiting, or it has waited for too long.
abbrev pub IsReady : ℕ → Meter → Type 0
IsReady now m = (m.buffer ≡ []) ⊎ ((0 < length m.buffer) × (300 < elapsed now m.rx_start_ms))

give_up-IsIdle : (now : ℕ) (m : Meter) → IsReady now m → IsIdle m (give_up now m)
give_up-IsIdle now m (inl e) =
    simp e (record { no_bytes = e; same_samples = refl; same_errors = refl })
give_up-IsIdle now m (inr (some_bytes, late)) =
    let waits : (ltb 0 (length m.buffer) && ltb 300 (elapsed now m.rx_start_ms)) ≡ true =
      ground arith in
    simp waits (record { no_bytes = refl; same_samples = refl; same_errors = refl })

-- What a received sample leaves.
pub record HasReceived (now : ℕ) (s : Sample) (m t : Meter) : Type 0 where
  pub no_bytes : t.buffer ≡ []
  pub valid : t.state.valid ≡ true
  pub sample : t.state.sample ≡ s
  pub counted : t.state.samples ≡ u32 (m.state.samples + 1)
  pub no_error : t.state.checksum_errors ≡ m.state.checksum_errors
  pub when : t.last_sample_ms ≡ now

parse_packet-frame :
    (now a b c : ℕ) (s : Sample) (m t : Meter)
    → IsSendable s
    → IsIdle m t
    → HasReceived now s m (parse_packet now (frame s a b c) (emptied t))
unfolding parse_packet
parse_packet-frame now a b c s m t h idle = rw (validate_checksum-frame s a b c) (record {
  no_bytes = refl;
  valid = refl;
  sample = packet_sample-frame s a b c h;
  counted = ap (λ n. u32 (n + 1)) idle.same_samples;
  no_error = idle.same_errors;
  when = refl;
})

-- A frame of the chip is received whole: the sample that the meter then holds is the one that was
-- sent, one more sample is counted and no checksum error. It may follow bytes that no frame begins
-- with, on a line that is idle or whose last packet has stalled for more than 300 ms.
pub service_meter_serial-frame :
    (now a b c : ℕ) (junk : List ℕ) (s : Sample) (m : Meter)
    → IsReady now m
    → IsJunk junk
    → IsSendable s
    → HasReceived now s m (service_meter_serial now (junk ++ frame s a b c) m)
unfolding service_meter_serial
service_meter_serial-frame now a b c junk s m ready j h =
    let start = give_up now m in
    let idle = receive_all-IsIdle now junk m start (give_up-IsIdle now m ready) j in
    rw (receive_all-append now junk (frame s a b c) start) (
      subst (HasReceived now s m)
        (sym (receive_all-packet now _ (receive_all now junk start) idle.no_bytes refl))
        (parse_packet-frame now a b c s m (receive_all now junk start) h idle))
