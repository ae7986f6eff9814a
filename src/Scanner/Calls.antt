-- ===== src/Scanner/Calls.antt =====
-- The calls of the scanner as values, and what a run of them publishes.
use forge_key.Prelude.{ℕ, Bool, List, [], ◌∷◌, ◌++◌, Text}
use forge_key.Ble.Config.{BleConfig}
use forge_key.Scanner.Advert.{Advertisement}
use forge_key.Scanner.Scan
use forge_key.Scanner.Scan.{
  Scanner, Effect, Report, stop_scan, start_scan, publish, on_result, set_enabled, setup,
}

pub data Call : Type 0 where
  result : BleConfig → ℕ → ℕ → Advertisement → Call
  tick : BleConfig → ℕ → Bool → Bool → Call
  enable : Bool → Call
  begin : BleConfig → Text → Call

unfoldable pub step : Call → Scanner → Scanner × List Effect
step (result c boot_salt now adv) s = (on_result c boot_salt now adv s, [])
step (tick c now connected published) s = Scan.tick c now connected published s
step (enable on) s = ((set_enabled on s).0, [])
step (begin c address) s = (setup c address s, [])

unfoldable pub run : List Call → Scanner → Scanner
unfolding step
run [] s = s
run (call ∷ calls) s = run calls (step call s).0

-- The reports among the effects.
abbrev pub reports_of : List Effect → List Report
reports_of [] = []
reports_of (publish r ∷ es) = r ∷ reports_of es
reports_of (stop_scan ∷ es) = reports_of es
reports_of (start_scan seconds ∷ es) = reports_of es

unfoldable pub reports : List Call → Scanner → List Report
unfolding step
reports [] s = []
reports (call ∷ calls) s = reports_of (step call s).1 ++ reports calls (step call s).0
