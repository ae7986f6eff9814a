-- ===== src/Ble/Examples.antt =====
-- A desired state with a denied address.
use forge_key.Prelude.{refl, Bool, true, false, [], ◌∷◌, codes, text_eq, if◌then◌else◌}
use forge_key.Json.{Conversions, Value, str, num, boolean}
use forge_key.Command.Examples.{lookup}
use forge_key.Ble.Config.{Desired, initial, finish, apply}
use forge_key.Ble.Limits.{IsSound, apply-IsSound}

abbrev json : Conversions
json = record { as_u8 = λ v. 0; as_bool = truth }
  where
    truth : Value → Bool
    truth (boolean b) = b
    truth _ = false

abbrev denying : Desired
denying = record {
  fields = lookup ((codes "scan_interval_ms", num 0) ∷ []);
  items =
      λ name. if text_eq name (codes "denylist") then str (codes "AA:BB:CC:DD:EE:FF") ∷ [] else [];
}

apply-IsSound_example : IsSound (apply json denying (initial true)).0
unfolding apply finish text_eq initial
apply-IsSound_example = apply-IsSound json denying (initial true) refl
