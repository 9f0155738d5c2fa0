-- ===== src/Ffi/Session/Reports.antt =====
-- Each transfer is reported once, unless it is cancelled.
use speeed.Base.{
  ℕ, suc, ◌+◌, ◌≤◌, ◌≡◌, refl, ap, ◌∙◌, inl, inr, Bool, true, false, ◌==◌, Bool-cases, Option-cases,
  Option, none, some, List, [], ◌∷◌, ◌++◌, length, length-append, arith,
}
use speeed.Ffi.Session.{
  EngineSession, Task, Phase, Outcome, Notice, Event, SessionState, cancelled, on_state_changed,
  on_finished, on_error, host_receiving, host_sending, client_sending, client_receiving, cancels,
  settles, reports, pending, settled, stats, failure, abort, aborted, abort_handle, after_abort,
  cancel, new, take_settled, report, reported, step, run,
}
use speeed.Ffi.Session.Starts.{
  Started, refused, spawned, start_host_receiving-Started, start_host_sending-Started,
  start_client_sending-Started, start_client_receiving-Started,
}
use speeed.Ffi.Session.Exclusive.{
  is_cancel, has_cancel, length-settle, take_settled_length, report_tasks,
}

-- How often the observer was told an outcome.
abbrev pub outcomes : List Notice → ℕ
outcomes [] = 0
outcomes (on_state_changed s ∷ ns) = outcomes ns
outcomes (on_finished bytes ∷ ns) = suc (outcomes ns)
outcomes (on_error ∷ ns) = suc (outcomes ns)

-- The transfers that were reported, and those that are still to be.
abbrev pub accounted : EngineSession → ℕ
accounted e = outcomes e.notices + length e.tasks

outcomes-append : (ns ms : List Notice) → outcomes (ns ++ ms) ≡ outcomes ns + outcomes ms
outcomes-append [] ms = omega arith
outcomes-append (on_state_changed s ∷ ns) ms = outcomes-append ns ms
outcomes-append (on_finished bytes ∷ ns) ms = omega (arith, outcomes-append ns ms)
outcomes-append (on_error ∷ ns) ms = omega (arith, outcomes-append ns ms)

-- A step accounts for as many transfers as it spawns.
abbrev Balanced : EngineSession → EngineSession → Type 0
Balanced e e' = accounted e' + e.next ≡ accounted e + e'.next

Started-Balanced : {e e' : EngineSession} → Started e e' → Balanced e e'
Started-Balanced (refused tasks next notices _) =
    omega (arith, ap length tasks, next, ap outcomes notices)
Started-Balanced {e} (spawned s _ _ tasks next notices) = omega (
  arith,
  ap length tasks,
  length-append e.tasks (record { id = e.next; phase = pending } ∷ []),
  next,
  ap outcomes notices,
  outcomes-append e.notices (on_state_changed s ∷ []),
)

outcomes-report :
    (o : Outcome) (e : EngineSession) → outcomes (report o e).notices ≡ suc (outcomes e.notices)
outcomes-report (stats bytes) e = omega (
  arith,
  outcomes-append e.notices (on_state_changed SessionState.completed ∷ on_finished bytes ∷ []),
)
outcomes-report failure e =
    omega (arith, outcomes-append e.notices (on_state_changed SessionState.failed ∷ on_error ∷ []))

report_next : (o : Outcome) (e : EngineSession) → (report o e).next ≡ e.next
report_next (stats bytes) e = refl
report_next failure e = refl

reported-Balanced : (id : ℕ) (e : EngineSession) → Balanced e (reported e (take_settled id e.tasks))
reported-Balanced id e = elim (Option-cases (take_settled id e.tasks)) [
  | inl nothing ↦ rw nothing (omega arith)
  | inr ((x, rest), found) ↦
      let left : EngineSession = record e { tasks = rest } in
      rw found (
        omega (
          arith,
          take_settled_length id e.tasks found,
          outcomes-report x left,
          report_next x left,
          ap length (report_tasks x left),
        ))
]

aborted_length :
    (ph : Phase) (rest : List Task) (t : Task) → length (aborted ph rest t) ≤ suc (length rest)
aborted_length pending rest t = omega arith
aborted_length (settled o) rest t = omega arith

abort_length : (id : ℕ) (ts : List Task) → length (abort id ts) ≤ length ts
unfolding abort
abort_length id [] = omega arith
abort_length id (t ∷ ts) = elim (Bool-cases (t.id == id)) [
  | inl own ↦ rw own (aborted_length t.phase ts t)
  | inr other ↦ rw other (omega (arith, abort_length id ts))
]

abort_handle-accounted :
    (task : Option ℕ) (e : EngineSession)
    → (accounted (abort_handle task e) ≤ accounted e) × ((abort_handle task e).next ≡ e.next)
abort_handle-accounted none e = (omega arith, refl)
abort_handle-accounted (some id) e = (omega (arith, abort_length id e.tasks), refl)

after_abort-accounted :
    (running : Bool) (e : EngineSession)
    → (accounted (after_abort running e) ≡ accounted e) × ((after_abort running e).next ≡ e.next)
after_abort-accounted true e =
    (omega (arith, outcomes-append e.notices (on_state_changed cancelled ∷ [])), refl)
after_abort-accounted false e = (refl, refl)

cancel-accounted :
    (e : EngineSession) → (accounted (cancel e) ≤ accounted e) × ((cancel e).next ≡ e.next)
unfolding cancel
cancel-accounted e =
    let (less, same) = abort_handle-accounted e.task e in
    let (kept, next) = after_abort-accounted e.running (abort_handle e.task e) in
    (omega (arith, less, kept), next ∙ same)

step-Balanced : (e : EngineSession) (x : Event) → is_cancel x ≡ false → Balanced e (step e x)
unfolding step
step-Balanced e (host_receiving b) h = Started-Balanced (start_host_receiving-Started b e)
step-Balanced e (host_sending b) h = Started-Balanced (start_host_sending-Started b e)
step-Balanced e (client_sending hex) h = Started-Balanced (start_client_sending-Started hex e)
step-Balanced e (client_receiving hex) h = Started-Balanced (start_client_receiving-Started hex e)
step-Balanced e cancels h = cc
step-Balanced e (settles id o) h = omega (arith, length-settle id o e.tasks)
step-Balanced e (reports id) h = reported-Balanced id e

is_cancel-cancels : (x : Event) → is_cancel x ≡ true → x ≡ cancels
is_cancel-cancels cancels h = refl
is_cancel-cancels (host_receiving b) h = cc
is_cancel-cancels (host_sending b) h = cc
is_cancel-cancels (client_sending hex) h = cc
is_cancel-cancels (client_receiving hex) h = cc
is_cancel-cancels (settles id o) h = cc
is_cancel-cancels (reports id) h = cc

accounted-step :
    (e : EngineSession) (x : Event) → accounted (step e x) + e.next ≤ accounted e + (step e x).next
unfolding step
accounted-step e x = elim (Bool-cases (is_cancel x)) [
  | inr going ↦ omega (arith, step-Balanced e x going)
  | inl stop ↦ rw (is_cancel-cancels x stop) (omega (arith, cancel-accounted e))
]

accounted-run :
    (e : EngineSession) (events : List Event)
    → accounted (run e events) + e.next ≤ accounted e + (run e events).next
unfolding run
accounted-run e [] = omega arith
accounted-run e (x ∷ xs) = omega (arith, accounted-step e x, accounted-run (step e x) xs)

run-Balanced :
    (e : EngineSession) (events : List Event)
    → has_cancel events ≡ false
    → Balanced e (run e events)
unfolding run
run-Balanced e [] h = omega arith
run-Balanced e (x ∷ xs) h =
    omega (arith, step-Balanced e x (ground arith), run-Balanced (step e x) xs (ground arith))

-- In a new session, after any calls and anything the tasks do, cancelled or not: the outcomes that the
-- observer was told are at most the transfers that were started, less those still alive.
pub run_reports_at_most_once :
    (events : List Event)
    → outcomes (run new events).notices + length (run new events).tasks ≤ (run new events).next
run_reports_at_most_once events = omega (arith, accounted-run new events)

-- When nothing is cancelled, they are as many: each transfer that was started and has ended was
-- reported exactly once.
pub run_reports_once :
    (events : List Event)
    → has_cancel events ≡ false
    → outcomes (run new events).notices + length (run new events).tasks ≡ (run new events).next
run_reports_once events h = omega (arith, run-Balanced new events h)
