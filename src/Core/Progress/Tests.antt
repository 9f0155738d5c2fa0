-- ===== src/Core/Progress/Tests.antt =====
-- core/crates/aetherlink-core/src/progress.rs: the theorems at concrete inputs.
use speeed.Base.{◌≡◌, refl, List, [], ◌∷◌, arith}
use speeed.Core.Progress.{Call, never, new, delivered, on_progress}
use speeed.Core.Progress.Spacing.{Spaced, finals, delivered-Spaced}

-- The first update, one of a worker that loaded late, one that comes too early, and the last.
abbrev four_calls : List Call
four_calls =
    record { bytes_done = 1; bytes_total = 4; now = 5; last = never }
    ∷ record { bytes_done = 2; bytes_total = 4; now = 6; last = never }
    ∷ record { bytes_done = 3; bytes_total = 4; now = 7; last = 5 }
    ∷ record { bytes_done = 4; bytes_total = 4; now = 8; last = 5 }
    ∷ []

delivered-Spaced_example :
    Spaced 100 never (delivered (new 100) four_calls)
    × (finals (delivered (new 100) four_calls) ≡ finals four_calls)
delivered-Spaced_example = delivered-Spaced (new 100) four_calls (omega arith)

first_and_last :
    delivered (new 100) four_calls
    ≡ record { bytes_done = 1; bytes_total = 4; now = 5; last = never }
      ∷ record { bytes_done = 4; bytes_total = 4; now = 8; last = 5 }
      ∷ []
unfolding delivered on_progress
first_and_last = refl
