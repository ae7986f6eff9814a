-- ===== src/Main/Buffered.antt =====
-- The ring as a queue: what it holds, and what one more entry makes of it.
use forge_key.Prelude.{
  ℕ, zero, suc, ◌+◌, ◌-◌, ◌%◌, ◌≤◌, ◌<◌, ◌≡◌, ◌≢◌, refl, ap, ap₂, ◌∙◌, List, [], ◌∷◌, ◌++◌, arith,
  ltb, Bool-cases, inl, inr, if◌then◌else◌, length, length-modify, modify, tail,
}
use forge_key.Main.Log.{Entry, Log, initial, clipped, buffer_debug_log, entry_at}

pub record IsRing (l : Log) : Type 0 where
  pub slots_fit : length l.slots ≡ 24
  pub start_fits : l.start < 24
  pub count_fits : l.count ≤ 24

pub initial-IsRing : IsRing initial
unfolding initial
initial-IsRing = record { slots_fit = refl; start_fits = omega arith; count_fits = omega arith }

-- So many entries, from one slot on.
unfoldable pub held : List Entry → ℕ → ℕ → List Entry
held slots i zero = []
held slots i (suc n) = entry_at slots i ∷ held slots ((i + 1) % 24) n

-- The entries that wait, the oldest first.
abbrev pub contents : Log → List Entry
contents l = held l.slots l.start l.count

-- A queue of at most 24 entries: a full one loses the oldest.
unfoldable pub enqueue : Entry → List Entry → List Entry
enqueue e q = (if ltb (length q) 24 then q else tail q) ++ clipped e ∷ []

length-held : (slots : List Entry) (i n : ℕ) → length (held slots i n) ≡ n
unfolding held
length-held slots i zero = refl
length-held slots i (suc n) = ap suc (length-held slots ((i + 1) % 24) n)

held-suc :
    (slots : List Entry) (i n : ℕ)
    → i < 24
    → held slots i (suc n) ≡ held slots i n ++ entry_at slots ((i + n) % 24) ∷ []
unfolding held
held-suc slots i zero h = ap (λ j. entry_at slots j ∷ []) (omega arith)
held-suc slots i (suc n) h =
    let same : ((i + 1) % 24 + n) % 24 ≡ (i + suc n) % 24 = omega arith in
    ap (◌∷◌ (entry_at slots i)) (
      held-suc slots ((i + 1) % 24) n (omega arith)
      ∙ ap (λ j. held slots ((i + 1) % 24) n ++ entry_at slots j ∷ []) same)

entry_at-modify_self :
    (e : Entry) (i : ℕ) (slots : List Entry)
    → i < length slots
    → entry_at (modify i (λ old. e) slots) i ≡ e
unfolding entry_at
entry_at-modify_self e i [] h = absurd (omega arith)
entry_at-modify_self e zero (x ∷ xs) h = refl
entry_at-modify_self e (suc i) (x ∷ xs) h = entry_at-modify_self e i xs (omega arith)

entry_at-modify_ne :
    (e : Entry) (i j : ℕ) (slots : List Entry)
    → i ≢ j
    → entry_at (modify i (λ old. e) slots) j ≡ entry_at slots j
unfolding entry_at
entry_at-modify_ne e i j [] h = refl
entry_at-modify_ne e zero zero (x ∷ xs) h = absurd (h refl)
entry_at-modify_ne e zero (suc j) (x ∷ xs) h = refl
entry_at-modify_ne e (suc i) zero (x ∷ xs) h = refl
entry_at-modify_ne e (suc i) (suc j) (x ∷ xs) h = entry_at-modify_ne e i j xs (λ p. h (ap suc p))

-- A write outside the slots that are read changes nothing.
held-modify :
    (e : Entry) (j i n : ℕ) (slots : List Entry)
    → i < 24
    → j < 24
    → n ≤ (j + 24 - i) % 24
    → held (modify j (λ old. e) slots) i n ≡ held slots i n
unfolding held
held-modify e j i zero slots h k r = refl
held-modify e j i (suc n) slots h k r =
    ap₂ ◌∷◌ (entry_at-modify_ne e j i slots (λ p. omega (arith, r, p)))
      (held-modify e j ((i + 1) % 24) n slots (omega arith) k (omega (arith, r)))

held-modify_next :
    (e : Entry) (i n : ℕ) (slots : List Entry)
    → length slots ≡ 24
    → i < 24
    → n < 24
    → held (modify ((i + n) % 24) (λ old. e) slots) i (n + 1) ≡ held slots i n ++ e ∷ []
held-modify_next e i n slots sized h few =
    let next : n + 1 ≡ suc n = omega arith in
    ap (held (modify ((i + n) % 24) (λ old. e) slots) i) next
    ∙ held-suc (modify ((i + n) % 24) (λ old. e) slots) i n h
    ∙ ap₂ (λ q x. q ++ x ∷ [])
        (held-modify e ((i + n) % 24) i n slots h (omega arith) (omega (arith, h, few)))
        (entry_at-modify_self e ((i + n) % 24) slots (omega (arith, sized)))

held-modify_oldest :
    (e : Entry) (i : ℕ) (slots : List Entry)
    → length slots ≡ 24
    → i < 24
    → held (modify i (λ old. e) slots) ((i + 1) % 24) 24 ≡ tail (held slots i 24) ++ e ∷ []
unfolding held
held-modify_oldest e i slots sized h =
    let same : ((i + 1) % 24 + 23) % 24 ≡ i = omega arith in
    held-suc (modify i (λ old. e) slots) ((i + 1) % 24) 23 (omega arith)
    ∙ ap₂ (λ q x. q ++ x ∷ [])
        (held-modify e i ((i + 1) % 24) 23 slots (omega arith) h (omega (arith, h)))
        (ap (entry_at (modify i (λ old. e) slots)) same
          ∙ entry_at-modify_self e i slots (omega (arith, sized)))

pub buffer_debug_log-IsRing : (e : Entry) (l : Log) → IsRing l → IsRing (buffer_debug_log e l)
unfolding buffer_debug_log
buffer_debug_log-IsRing e l ring = elim (Bool-cases (ltb l.count 24)) [
  | inl room ↦ rw room (record {
    slots_fit =
        length-modify ((l.start + l.count) % 24) (λ old. clipped e) l.slots ∙ ring.slots_fit;
    start_fits = ring.start_fits;
    count_fits = ground (arith, room);
  })
  | inr full ↦ rw full (record {
    slots_fit = length-modify l.start (λ old. clipped e) l.slots ∙ ring.slots_fit;
    start_fits = omega arith;
    count_fits = ring.count_fits;
  })
]

pub buffer_debug_log-contents :
    (e : Entry) (l : Log) → IsRing l → contents (buffer_debug_log e l) ≡ enqueue e (contents l)
unfolding buffer_debug_log enqueue
buffer_debug_log-contents e l ring =
    rw (length-held l.slots l.start l.count) (elim (Bool-cases (ltb l.count 24)) [
      | inl room ↦ rw room (
          held-modify_next (clipped e) l.start l.count l.slots ring.slots_fit ring.start_fits
            (ground (arith, room)))
      | inr full ↦
          let at_most : l.count ≡ 24 = ground (arith, full, ring.count_fits) in
          rw (full, at_most)
            (held-modify_oldest (clipped e) l.start l.slots ring.slots_fit ring.start_fits)
    ])
