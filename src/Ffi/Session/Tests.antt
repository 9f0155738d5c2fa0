-- ===== src/Ffi/Session/Tests.antt =====
-- core/crates/aetherlink-ffi/src/lib.rs: the session at concrete inputs.
use speeed.Base.{◌+◌, ◌≤◌, ◌≡◌, inl, refl, true, none, some, List, [], ◌∷◌, length, replicate}
use speeed.Ffi.Session.{
  Binding, Event, host_receiving, host_sending, cancels, settles, reports, stats, failure, new,
  start_host_receiving, cancel, abort, settle, take_settled, step, run,
}
use speeed.Ffi.Session.Exclusive.{Exclusive, run-Exclusive}
use speeed.Ffi.Session.Reports.{outcomes, run_reports_at_most_once, run_reports_once}
use speeed.Ffi.Session.Stuck.{Stuck, failed_identity_blocks}

abbrev works : Binding
works = record { identity = some (replicate 32 7); listens = true; port = some 52080 }

abbrev no_identity : Binding
no_identity = record { identity = none; listens = true; port = some 52080 }

-- Two transfers, one after the other, and a call that comes too early.
abbrev two_transfers : List Event
two_transfers =
    host_receiving works
    ∷ host_sending works
    ∷ settles 0 (stats 10)
    ∷ reports 0
    ∷ host_sending works
    ∷ settles 1 failure
    ∷ []

run-Exclusive_example : Exclusive (run new two_transfers)
run-Exclusive_example = run-Exclusive new two_transfers refl (inl refl)

run_reports_once_example :
    outcomes (run new two_transfers).notices + length (run new two_transfers).tasks
    ≡ (run new two_transfers).next
run_reports_once_example = run_reports_once two_transfers refl

-- A transfer that has ended, but has not reported yet, is cancelled, and another one starts: the late
-- report hands back the session of the second, and a third starts beside it.
abbrev late_report : List Event
late_report =
    host_receiving works
    ∷ settles 0 (stats 10)
    ∷ cancels
    ∷ host_receiving works
    ∷ reports 0
    ∷ host_receiving works
    ∷ []

two_at_once : length (run new late_report).tasks ≡ 2
unfolding run step start_host_receiving settle cancel abort take_settled
two_at_once = refl

run_reports_at_most_once_example :
    outcomes (run new late_report).notices + length (run new late_report).tasks
    ≤ (run new late_report).next
run_reports_at_most_once_example = run_reports_at_most_once late_report

failed_identity_blocks_example : Stuck (run (step new (host_receiving no_identity)) two_transfers)
failed_identity_blocks_example =
    failed_identity_blocks no_identity new two_transfers refl refl refl refl
