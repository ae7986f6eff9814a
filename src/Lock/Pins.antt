-- ===== src/Lock/Pins.antt =====
-- Debouncing over a sequence of readings.
use forge_key.Prelude.{
  ℕ, ◌+◌, ◌≤◌, ◌<◌, ◌≡◌, ◌≢◌, refl, ◌∙◌, Bool, true, false, List, [], ◌∷◌, ◌++◌, arith, elapsed,
  subst, sym, ◌⊎◌, inl,
}
use forge_key.Lock.State.{Pin}
use forge_key.Lock.Tick.{debounce}

-- The pin after a sequence of readings, each with its time.
abbrev pub debounce_all : ℕ → List (ℕ × Bool) → Pin → Pin
debounce_all limit [] p = p
debounce_all limit ((now, raw) ∷ rs) p = debounce_all limit rs (debounce limit now raw p)

-- Readings in the order of time, none before `lo`, all before `hi`.
abbrev pub IsBurst : ℕ → ℕ → List (ℕ × Bool) → Type 0
IsBurst lo hi [] = Unit
IsBurst lo hi ((now, raw) ∷ rs) = (lo ≤ now) × (now < hi) × IsBurst now hi rs

debounce-still :
    (limit lo now hi : ℕ) (raw : Bool) (p : Pin)
    → (p.debounce_start ≡ 0) ⊎ ((lo ≤ p.debounce_start) × (p.debounce_start ≤ now))
    → lo ≤ now
    → now < lo + limit
    → lo + limit ≤ 4294967296
    → let q = debounce limit now raw p in
      (q.value ≡ p.value)
      × ((q.debounce_start ≡ 0) ⊎ ((lo ≤ q.debounce_start) × (q.debounce_start ≤ now)))
unfolding debounce
debounce-still limit lo now hi raw p h a b c = ground arith

burst_still :
    (limit lo from : ℕ) (rs : List (ℕ × Bool)) (p : Pin)
    → (p.debounce_start ≡ 0) ⊎ ((lo ≤ p.debounce_start) × (p.debounce_start ≤ from))
    → lo ≤ from
    → IsBurst from (lo + limit) rs
    → lo + limit ≤ 4294967296
    → (debounce_all limit rs p).value ≡ p.value
burst_still limit lo from [] p h a b c = refl
burst_still limit lo from ((now, raw) ∷ rs) p h a b c =
    let q = debounce limit now raw p in
    let (same, start) = debounce-still limit lo now 0 raw p (ground arith) (omega arith) b.1 c in
    burst_still limit lo now rs q start (omega arith) b.2 c ∙ same

-- A burst of readings that is over before the debounce time has passed leaves a settled pin at its
-- value, however the readings bounce. The clock does not wrap during the burst.
pub debounce-burst :
    (limit lo : ℕ) (rs : List (ℕ × Bool)) (p : Pin)
    → p.debounce_start ≡ 0
    → IsBurst lo (lo + limit) rs
    → lo + limit ≤ 4294967296
    → (debounce_all limit rs p).value ≡ p.value
debounce-burst limit lo rs p settled burst room =
    burst_still limit lo lo rs p (inl settled) (omega arith) burst room

-- All readings say `raw`.
abbrev pub IsSteady : Bool → List (ℕ × Bool) → Type 0
IsSteady raw [] = Unit
IsSteady raw ((now, r) ∷ rs) = (r ≡ raw) × IsSteady raw rs

debounce_all-snoc :
    (limit now : ℕ) (raw : Bool) (rs : List (ℕ × Bool)) (p : Pin)
    → debounce_all limit (rs ++ (now, raw) ∷ []) p
      ≡ debounce limit now raw (debounce_all limit rs p)
debounce_all-snoc limit now raw [] p = refl
debounce_all-snoc limit now raw ((t, r) ∷ rs) p =
    debounce_all-snoc limit now raw rs (debounce limit t r p)

-- Either the new value is accepted, or it has been waiting since the first reading.
Waits : ℕ → Bool → Pin → Type 0
Waits start raw p = (p.value ≡ raw) ⊎ ((p.value ≢ raw) × (p.debounce_start ≡ start))

debounce-Waits :
    (limit start now : ℕ) (raw : Bool) (p : Pin)
    → 0 < start
    → Waits start raw p
    → Waits start raw (debounce limit now raw p)
unfolding debounce Waits
debounce-Waits limit start now true p h w = ground arith
debounce-Waits limit start now false p h w = ground arith

steady-Waits :
    (limit start : ℕ) (raw : Bool) (rs : List (ℕ × Bool)) (p : Pin)
    → 0 < start
    → Waits start raw p
    → IsSteady raw rs
    → Waits start raw (debounce_all limit rs p)
steady-Waits limit start raw [] p h w s = w
steady-Waits limit start raw ((now, r) ∷ rs) p h w (e, s) =
    steady-Waits limit start raw rs (debounce limit now r p) h
      (subst (λ b. Waits start raw (debounce limit now b p)) (sym e)
        (debounce-Waits limit start now raw p h w))
      s

accepts :
    (limit start now : ℕ) (raw : Bool) (p : Pin)
    → 0 < start
    → limit ≤ elapsed now start
    → Waits start raw p
    → (debounce limit now raw p).value ≡ raw
unfolding debounce Waits
accepts limit start now true p h a w = ground arith
accepts limit start now false p h a w = ground arith

begins_to_wait :
    (limit start : ℕ) (raw : Bool) (p : Pin)
    → p.debounce_start ≡ 0
    → Waits start raw (debounce limit start raw p)
unfolding debounce Waits
begins_to_wait limit start true p h = ground arith
begins_to_wait limit start false p h = ground arith

-- A pin that reads the same from one time on, however often, takes that value at the first reading
-- at which the debounce time has passed. The pin was settled and the clock not at 0.
pub debounce-steady :
    (limit start now : ℕ) (raw : Bool) (rs : List (ℕ × Bool)) (p : Pin)
    → p.debounce_start ≡ 0
    → 0 < start
    → IsSteady raw rs
    → limit ≤ elapsed now start
    → (debounce_all limit ((start, raw) ∷ rs ++ (now, raw) ∷ []) p).value ≡ raw
debounce-steady limit start now raw rs p settled h steady long =
    let q = debounce limit start raw p in
    rw (debounce_all-snoc limit now raw rs q) (
      accepts limit start now raw (debounce_all limit rs q) h long
        (steady-Waits limit start raw rs q h (begins_to_wait limit start raw p settled) steady))
