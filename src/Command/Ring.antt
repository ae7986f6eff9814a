-- ===== src/Command/Ring.antt =====
-- The ring of the replay cache: its invariant, and how long an accepted command is remembered.
use forge_key.Prelude.{
  subst, All, if◌then◌else◌, ℕ, zero, suc, ◌+◌, ◌%◌, ◌≤◌, ◌<◌, ◌≡◌, ◌∙◌, true, false, some, List,
  [], ◌∷◌, arith, ltb, length, length-modify, take, modify, Text, is_empty, text_eq_self, get_elem?,
  get_elem?-modify_self, get_elem?-modify_ne,
}
use forge_key.Command.Replay.{
  ReplayEntry, Cache, initial, matches, any_match, replay_seen, remember,
}

-- Sixteen slots, of which `count` are in use; until all are, the next one to write is the first
-- unused one.
pub record IsRing (c : Cache) : Type 0 where
  pub sixteen : length c.slots ≡ 16
  pub count_fits : c.count ≤ 16
  pub next_fits : c.next < 16
  pub fills_up : c.count < 16 → c.next ≡ c.count

pub initial-IsRing : IsRing initial
unfolding initial
initial-IsRing = ground arith

pub remember-IsRing : (id nonce : Text) (c : Cache) → IsRing c → IsRing (remember id nonce c).0
unfolding remember
remember-IsRing id nonce c h = ground (
  arith,
  length-modify c.next (λ e. record e { command_id = id }) c.slots,
  length-modify c.next (λ e. record { command_id = id; nonce = nonce }) c.slots,
)

-- An entry among the first `n` slots is found.
any_match-take :
    (id nonce : Text) (n i : ℕ) (es : List ReplayEntry) (e : ReplayEntry)
    → i < n
    → get_elem? es i ≡ some e
    → matches id nonce e ≡ true
    → any_match id nonce (take n es) ≡ true
unfolding any_match
any_match-take id nonce zero i es e h g m = absurd (omega arith)
any_match-take id nonce (suc n) i [] e h g m = cc
any_match-take id nonce (suc n) zero (x ∷ es) e h g m = ground arith
any_match-take id nonce (suc n) (suc i) (x ∷ es) e h g m =
    ground (arith, any_match-take id nonce n i es e (omega arith) g m)

-- What the fields of an entry hold: not empty, and shorter than 72 bytes.
abbrev pub IsStorable : Text × Text → Type 0
IsStorable (id, nonce) =
    (is_empty id ≡ false) × (length id < 72) × (is_empty nonce ≡ false) × (length nonce < 72)

unfoldable pub remember_all : List (Text × Text) → Cache → Cache
remember_all [] c = c
remember_all ((id, nonce) ∷ later) c = remember_all later (remember id nonce c).0

pub remember_all-IsRing :
    (both : List (Text × Text)) (c : Cache) → IsRing c → IsRing (remember_all both c)
unfolding remember_all
remember_all-IsRing [] c ring = ring
remember_all-IsRing ((id, nonce) ∷ later) c ring =
    remember_all-IsRing later (remember id nonce c).0 (remember-IsRing id nonce c ring)

-- An entry that stands in slot `i`, and was written `j` writes before the last one.
record Stands (i j : ℕ) (e : ReplayEntry) (c : Cache) : Type 0 where
  slot : get_elem? c.slots i ≡ some e
  used : i < c.count
  range : i < 16
  back : c.next ≡ (i + 1 + j) % 16

entry_of : Text × Text → ReplayEntry
entry_of (id, nonce) = record { command_id = id; nonce = nonce }

-- The state after a storable entry is remembered.
pub remember_storable :
    (id nonce : Text) (c : Cache)
    → IsStorable (id, nonce)
    → (remember id nonce c).0 ≡ record c {
      slots = modify c.next (λ e. record { command_id = id; nonce = nonce }) c.slots;
      count = if ltb c.count 16 then c.count + 1 else c.count;
      next = (c.next + 1) % 16;
    }
unfolding remember
remember_storable id nonce c h = ground arith

remember-Stands :
    (id nonce : Text) (c : Cache)
    → IsStorable (id, nonce)
    → IsRing c
    → Stands c.next 0 (record { command_id = id; nonce = nonce }) (remember id nonce c).0
remember-Stands id nonce c h ring = rw (remember_storable id nonce c h) (record {
  slot =
      (get_elem?-modify_self c.next (λ e. record { command_id = id; nonce = nonce }) c.slots
        (omega (arith, ring.next_fits, ring.sixteen))).1;
  used = ground arith;
  range = ring.next_fits;
  back = omega arith;
})

remember-Stands_later :
    (id nonce : Text) (c : Cache) (i j : ℕ) (e : ReplayEntry)
    → IsStorable (id, nonce)
    → j < 15
    → Stands i j e c
    → Stands i (suc j) e (remember id nonce c).0
remember-Stands_later id nonce c i j e h few st = rw (remember_storable id nonce c h) (record {
  slot =
      get_elem?-modify_ne c.next i (λ e. record { command_id = id; nonce = nonce }) c.slots
        (omega (arith, st.back, st.range))
      ∙ st.slot;
  used = ground (arith, st.used);
  range = st.range;
  back = omega (arith, st.back);
})

remember_all-Stands :
    (later : List (Text × Text)) (c : Cache) (i j : ℕ) (e : ReplayEntry)
    → All IsStorable later
    → j + length later ≤ 15
    → Stands i j e c
    → Stands i (j + length later) e (remember_all later c)
unfolding remember_all
remember_all-Stands [] c i j e h few st = subst (λ n. Stands i n e c) (omega arith) st
remember_all-Stands ((id, nonce) ∷ later) c i j e h few st =
    subst (λ n. Stands i n e (remember_all later (remember id nonce c).0)) (omega arith)
      (remember_all-Stands later (remember id nonce c).0 i (suc j) e h.1 (omega arith)
        (remember-Stands_later id nonce c i j e h.0 (omega arith) st))

-- A command that is remembered in a valid ring is recognised by its id and by its nonce, with
-- whatever other value beside, until sixteen more have been remembered. All ids and nonces are
-- shorter than 72 bytes and not empty, as those of accepted commands are.
pub replay_seen-remember :
    (id nonce : Text) (later : List (Text × Text)) (c : Cache) (other : Text)
    → IsRing c
    → IsStorable (id, nonce)
    → All IsStorable later
    → length later ≤ 15
    → let d = remember_all later (remember id nonce c).0 in
      (replay_seen id other d ≡ true) × (replay_seen other nonce d ≡ true)
unfolding replay_seen
replay_seen-remember id nonce later c other ring h hs few =
    let e : ReplayEntry = record { command_id = id; nonce = nonce } in
    let d = remember_all later (remember id nonce c).0 in
    let st =
      remember_all-Stands later (remember id nonce c).0 c.next 0 e hs (omega arith)
        (remember-Stands id nonce c h ring) in
    (
      any_match-take id other d.count c.next d.slots e st.used st.slot
          (ground (arith, text_eq_self id)),
      any_match-take other nonce d.count c.next d.slots e st.used st.slot
          (ground (arith, text_eq_self nonce)),
    )
