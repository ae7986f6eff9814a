-- ===== src/Relay/Persistence.antt =====
-- What the channels keep: every accepted setting is stored, and a reboot restores them.
use forge_key.Prelude.{
  ℕ, zero, suc, ◌-◌, ◌<◌, ◌≡◌, ◌≢◌, refl, sym, ap, subst, ◌∙◌, Bool, true, false, List, [], ◌∷◌,
  arith, if◌then◌else◌, length, length-modify, modify, Text, codes, ◌⊎◌, inl, inr, Bool-cases, some,
}
use forge_key.Json.{Conversions, Document}
use forge_key.Outbox.Flash.{NvsApi, NvsLaws}
use forge_key.Relay.Channels.{
  set_pin, reset_pin, ok, Relay, state_at, mask_from, bit_of, in_range, write_nvs, read_nvs, setup,
  channel_state, set_channel, requested, set_from_command,
}

module _ {Flash : Type 0} (api : NvsApi Flash) (laws : NvsLaws api) where
  -- The flash holds the channels: a boot, with both channels off in memory, reads them.
  pub record IsStored (r : Relay Flash) : Type 0 where
    pub two : length r.states ≡ 2
    pub stored : read_nvs api r.flash (false ∷ false ∷ []) ≡ r.states

  abbrev written : ℕ → Flash → Flash
  written mask f = api.commit (api.set_u8 (codes "states") mask f)

  stored_mask : (mask : ℕ) (f : Flash) → api.get_u8 (codes "states") (written mask f) ≡ some mask
  stored_mask mask f = laws.get_u8-commit _ _ ∙ laws.get_u8-set_u8 _ _ _

  write_nvs-written : (ss : List Bool) (f : Flash) → write_nvs api ss f ≡ written (mask_from 0 ss) f
  unfolding write_nvs
  write_nvs-written ss f = rw (laws.opens_rw_lem f)

  read_nvs-written :
      (mask : ℕ) (f : Flash) (states : List Bool)
      → read_nvs api (written mask f) states ≡ bit_of mask 0 ∷ bit_of mask 1 ∷ []
  unfolding read_nvs
  read_nvs-written mask f states =
      rw (laws.opens_ro_lem (written mask f), stored_mask mask f, read_nvs)

  bit_of-mask_from :
      (a b : Bool)
      → bit_of (mask_from 0 (a ∷ b ∷ [])) 0 ∷ bit_of (mask_from 0 (a ∷ b ∷ [])) 1 ∷ [] ≡ a ∷ b ∷ []
  unfolding mask_from
  bit_of-mask_from true true = refl
  bit_of-mask_from true false = refl
  bit_of-mask_from false true = refl
  bit_of-mask_from false false = refl

  read_nvs-write_nvs :
      (a b : Bool) (f : Flash) (states : List Bool)
      → read_nvs api (write_nvs api (a ∷ b ∷ []) f) states ≡ a ∷ b ∷ []
  read_nvs-write_nvs a b f states =
      rw (write_nvs-written (a ∷ b ∷ []) f)
        (read_nvs-written (mask_from 0 (a ∷ b ∷ [])) f states ∙ bit_of-mask_from a b)

  write_nvs-read_back :
      (ss : List Bool) (f : Flash) (states : List Bool)
      → length ss ≡ 2
      → read_nvs api (write_nvs api ss f) states ≡ ss
  write_nvs-read_back [] f states h = cc
  write_nvs-read_back (a ∷ []) f states h = cc
  write_nvs-read_back (a ∷ b ∷ []) f states h = read_nvs-write_nvs a b f states
  write_nvs-read_back (a ∷ b ∷ c ∷ ss) f states h = absurd (omega arith)

  -- A setting that is not accepted changes nothing and moves no coil: the relay is not ready, or
  -- there is no such channel.
  pub set_channel-refused :
      (channel : ℕ) (on : Bool) (r : Relay Flash)
      → (r.ready ≡ false) ⊎ (in_range channel ≡ false)
      → ((set_channel api channel on r).0 ≡ r) × ((set_channel api channel on r).1 ≢ ok)
  unfolding set_channel
  set_channel-refused channel on r h = ground arith

  -- What an accepted setting leaves.
  pub record HasSwitched (channel : ℕ) (on : Bool) (r t : Relay Flash) : Type 0 where
    pub this_channel : channel_state api channel t ≡ on
    pub other_channels :
        (other : ℕ) → other ≢ channel → channel_state api other t ≡ channel_state api other r
    pub one_pulse :
        t.pulses ≡ (if on then set_pin (channel - 1) else reset_pin (channel - 1)) ∷ r.pulses
    pub kept : IsStored t

  state_at-modify :
      (i : ℕ) (on : Bool) (ss : List Bool) → i < length ss → state_at (modify i (λ _. on) ss) i ≡ on
  state_at-modify i on [] h = absurd (omega arith)
  state_at-modify zero on (s ∷ ss) h = refl
  state_at-modify (suc i) on (s ∷ ss) h = state_at-modify i on ss (omega arith)

  state_at-modify_ne :
      (i j : ℕ) (on : Bool) (ss : List Bool)
      → i ≢ j
      → state_at (modify i (λ _. on) ss) j ≡ state_at ss j
  state_at-modify_ne i j on [] h = refl
  state_at-modify_ne zero zero on (s ∷ ss) h = absurd (h refl)
  state_at-modify_ne zero (suc j) on (s ∷ ss) h = refl
  state_at-modify_ne (suc i) zero on (s ∷ ss) h = refl
  state_at-modify_ne (suc i) (suc j) on (s ∷ ss) h =
      state_at-modify_ne i j on ss (λ e. h (ap suc e))

  -- A setting of a ready relay's channel gives that channel the state, no other, by one pulse of
  -- the coil for it; and the flash then holds the channels.
  pub set_channel-HasSwitched :
      (channel : ℕ) (on : Bool) (r : Relay Flash)
      → r.ready ≡ true
      → in_range channel ≡ true
      → length r.states ≡ 2
      → ((set_channel api channel on r).1 ≡ ok)
        × HasSwitched channel on r (set_channel api channel on r).0
  unfolding set_channel channel_state
  set_channel-HasSwitched channel on r ready range two =
      rw (ready, range)
        (
          refl,
          record {
            this_channel = rw range (state_at-modify (channel - 1) on r.states (ground arith));
            other_channels = λ other ne. others other ne;
            one_pulse = refl;
            kept = record {
              two = length-modify (channel - 1) (λ _. on) r.states ∙ two;
              stored =
                  write_nvs-read_back (modify (channel - 1) (λ _. on) r.states) r.flash
                    (false ∷ false ∷ []) (length-modify (channel - 1) (λ _. on) r.states ∙ two);
            };
          },
        )
    where
      others :
          (other : ℕ)
          → other ≢ channel
          → (if in_range other
              then state_at (modify (channel - 1) (λ _. on) r.states) (other - 1)
              else false)
            ≡ (if in_range other then state_at r.states (other - 1) else false)
      others other ne = elim (Bool-cases (in_range other)) [
        | inr e ↦ simp e refl
        | inl e ↦ simp e (state_at-modify_ne (channel - 1) (other - 1) on r.states (ground arith))
      ]

-- What the rest of the firmware asks of the relay.
pub data Call : Type 0 where
  sets : (channel : ℕ) (on : Bool) → Call
  commands : (json : Conversions) (doc : Document) (command_id : Text) → Call

module _ {Flash : Type 0} (api : NvsApi Flash) where
  unfoldable pub call : Relay Flash → Call → Relay Flash
  call r (sets channel on) = (set_channel api channel on r).0
  call r (commands json doc command_id) = (set_from_command api json doc command_id r).0

  unfoldable pub calls : Relay Flash → List Call → Relay Flash
  calls r [] = r
  calls r (c ∷ cs) = calls (call r c) cs

module _ {Flash : Type 0} (api : NvsApi Flash) (laws : NvsLaws api) where
  set_channel-IsStored :
      (channel : ℕ) (on : Bool) (r : Relay Flash)
      → IsStored api laws r
      → IsStored api laws (set_channel api channel on r).0
  set_channel-IsStored channel on r h = elim (Bool-cases r.ready) [
    | inr e ↦
        subst (IsStored api laws) (sym (set_channel-refused api laws channel on r (inl e)).0) h
    | inl ready ↦ elim (Bool-cases (in_range channel)) [
      | inr e ↦
          subst (IsStored api laws) (sym (set_channel-refused api laws channel on r (inr e)).0) h
      | inl range ↦ (set_channel-HasSwitched api laws channel on r ready range h.two).1.kept
    ]
  ]

  call-IsStored :
      (r : Relay Flash) (c : Call) → IsStored api laws r → IsStored api laws (call api r c)
  unfolding call set_from_command
  call-IsStored r (sets channel on) h = set_channel-IsStored channel on r h
  call-IsStored r (commands json doc command_id) h =
      set_channel-IsStored (requested json doc r.states).0 (requested json doc r.states).1 r h

  relay_calls-IsStored :
      (r : Relay Flash) (cs : List Call) → IsStored api laws r → IsStored api laws (calls api r cs)
  unfolding calls
  relay_calls-IsStored r [] h = h
  relay_calls-IsStored r (c ∷ cs) h = relay_calls-IsStored (call api r c) cs (call-IsStored r c h)

  -- After any settings and commands a power cut loses no channel: the boot, which finds both
  -- channels off in memory, restores them from the flash. The flash takes its writes, and was in
  -- step before, as a blank one is with both channels off.
  pub setup_restores :
      (r : Relay Flash) (cs : List Call)
      → IsStored api laws r
      → (setup api (record (calls api r cs) { states = false ∷ false ∷ []; ready = false })).states
        ≡ (calls api r cs).states
  unfolding setup
  setup_restores r cs h = (relay_calls-IsStored r cs h).stored
