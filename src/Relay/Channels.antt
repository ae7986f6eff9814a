-- ===== src/Relay/Channels.antt =====
-- The two channels: `setChannel`, `setFromCommand`, and the mask in flash.
use forge_key.Prelude.{
  ℕ, zero, suc, ◌+◌, ◌-◌, ◌/◌, ◌%◌, ◌^◌, Bool, true, false, not, ◌&&◌, ◌||◌, none, some, List, [],
  ◌∷◌, ltb, ◌==◌, if◌then◌else◌, modify, Text, codes, text_eq,
}
use forge_key.Json.{Conversions, Document, text_or_empty, is_null}
use forge_key.Outbox.Flash.{NvsApi}

abbrev pub channel_count : ℕ
channel_count = 2

-- What a setting does to the relay's coils.
pub data Coil : Type 0 where
  set_pin reset_pin : ℕ → Coil

-- The detail of an acknowledgement.
pub data Detail : Type 0 where
  ok power_relay_not_ready invalid_channel : Detail

-- g_states and g_ready, with the flash and the pulses that the coils have had.
pub record Relay (Flash : Type 0) : Type 0 where
  pub states : List Bool
  pub ready : Bool
  pub flash : Flash
  pub pulses : List Coil

abbrev pub state_at : List Bool → ℕ → Bool
state_at [] i = false
state_at (s ∷ ss) zero = s
state_at (s ∷ ss) (suc i) = state_at ss i

-- The mask of the channels from the `i`-th on.
unfoldable pub mask_from : ℕ → List Bool → ℕ
mask_from i [] = 0
mask_from i (s ∷ ss) = (if s then 2 ^ i else 0) + mask_from (suc i) ss

-- (mask & (1U << i)) != 0
abbrev pub bit_of : ℕ → ℕ → Bool
bit_of mask i = mask / 2 ^ i % 2 == 1

abbrev pub in_range : ℕ → Bool
in_range channel = not (ltb channel 1 || ltb channel_count channel)

module _ {Flash : Type 0} (api : NvsApi Flash) where
  unfoldable pub write_nvs : List Bool → Flash → Flash
  unfolding mask_from
  write_nvs states f =
      if api.opens_rw f then api.commit (api.set_u8 (codes "states") (mask_from 0 states) f) else f

  unfoldable pub read_nvs : Flash → List Bool → List Bool
  read_nvs f states =
      if api.opens_ro f
      then elim (api.get_u8 (codes "states") f) [
        | none ↦ states
        | some mask ↦ bit_of mask 0 ∷ bit_of mask 1 ∷ []
      ]
      else states

  -- `setupFn`, without the pins and the meter.
  unfoldable pub setup : Relay Flash → Relay Flash
  unfolding read_nvs
  setup r = record r { states = read_nvs r.flash r.states; ready = true }

  unfoldable pub channel_state : ℕ → Relay Flash → Bool
  channel_state channel r = if in_range channel then state_at r.states (channel - 1) else false

  unfoldable pub set_channel : ℕ → Bool → Relay Flash → Relay Flash × Detail
  unfolding write_nvs
  set_channel channel on r =
      let index = channel - 1 in
      let states = modify index (λ _. on) r.states in
      if not r.ready
      then (r, power_relay_not_ready)
      else if not (in_range channel)
      then (r, invalid_channel)
      else (
        record r {
          states = states;
          flash = write_nvs states r.flash;
          pulses = (if on then set_pin index else reset_pin index) ∷ r.pulses;
        },
        ok,
      )

-- The channel that a command names, 0 if it names none.
unfoldable pub command_channel : Conversions → Document → ℕ
command_channel json doc =
    if not (is_null (doc (codes "channel")))
    then json.as_u8 (doc (codes "channel"))
    else if not (is_null (doc (codes "relay")))
    then json.as_u8 (doc (codes "relay"))
    else 0

-- The channel and the state that are requested; an unknown action resets the channel to 0.
unfoldable pub requested : Conversions → Document → List Bool → ℕ × Bool
unfolding command_channel
requested json doc states =
    let channel = command_channel json doc in
    let action = text_or_empty (doc (codes "action")) in
    if not (is_null (doc (codes "on")))
    then (channel, json.as_bool (doc (codes "on")))
    else if text_eq action (codes "on") || text_eq action (codes "enable")
    then (channel, true)
    else if text_eq action (codes "off") || text_eq action (codes "disable")
    then (channel, false)
    else if text_eq action (codes "toggle") && in_range channel
    then (channel, not (state_at states (channel - 1)))
    else (0, false)

-- The acknowledgement that is published.
pub record Ack : Type 0 where
  pub command_id : Text
  pub ok : Bool
  pub channel : ℕ
  pub on : Bool
  pub detail : Detail
  pub channels : List Bool

abbrev pub is_ok : Detail → Bool
is_ok ok = true
is_ok _ = false

module _ {Flash : Type 0} (api : NvsApi Flash) where
  unfoldable pub set_from_command : Conversions → Document → Text → Relay Flash → Relay Flash × Ack
  unfolding requested
  set_from_command json doc command_id r =
      let (channel, requested_on) = requested json doc r.states in
      let (t, detail) = set_channel api channel requested_on r in
      (
        t,
        record {
          command_id = command_id;
          ok = is_ok detail;
          channel = channel;
          on = if is_ok detail then requested_on else false;
          detail = detail;
          channels = t.states;
        },
      )
