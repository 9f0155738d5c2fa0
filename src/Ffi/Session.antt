-- ===== src/Ffi/Session.antt =====
-- core/crates/aetherlink-ffi/src/lib.rs: `EngineSession`. A call of the platform is one step; a task
-- takes two, one in which its transfer comes to an outcome and one in which its `Reporter` reports
-- it, so that calls can come between them. What the transfer does is the outcome that the
-- environment chooses, and so are the identity, the listener and its port.
pub mod Starts
pub mod Exclusive
pub mod Reports
pub mod Stuck
mod Tests
use speeed.Base.{
  ℕ, zero, suc, ◌+◌, Bool, true, false, not, ◌==◌, if◌then◌else◌, Option, none, some, List, [], ◌∷◌,
  ◌++◌, Result, ok, err, panic,
}
use speeed.Base.Bytes.{Bytes}
use speeed.Ffi.Fingerprint.{Fault, fingerprint_hex, parse_fingerprint}

pub data SessionState : Type 0 where
  idle listening transferring completed failed cancelled : SessionState

pub data EngineError : Type 0 where
  busy : EngineError
  bad_fingerprint : Fault → EngineError
  engine : EngineError

-- What the observer is told.
pub data Notice : Type 0 where
  on_state_changed : SessionState → Notice
  on_finished : ℕ → Notice
  on_error : Notice

-- The result of a transfer: the bytes of its statistics, or an error.
pub data Outcome : Type 0 where
  stats : ℕ → Outcome
  failure : Outcome

pub data Phase : Type 0 where
  pending : Phase
  settled : Outcome → Phase

pub record Task : Type 0 where
  pub id : ℕ
  pub phase : Phase

-- `task` is the handle that `cancel` aborts; `tasks` are those that have not ended yet, and `next` is
-- the number of tasks that were spawned.
pub record EngineSession : Type 0 where
  pub state : SessionState
  pub running : Bool
  pub task : Option ℕ
  pub tasks : List Task
  pub next : ℕ
  pub notices : List Notice

abbrev pub new : EngineSession
new = record { state = idle; running = false; task = none; tasks = []; next = 0; notices = [] }

pub record HostHandle : Type 0 where
  pub port : ℕ
  pub fingerprint_hex : Bytes

-- What the environment gives to `bind_host`: the fingerprint of a generated identity, whether the
-- listener is bound, and its port.
pub record Binding : Type 0 where
  pub identity : Option Bytes
  pub listens : Bool
  pub port : Option ℕ

abbrev pub set_state : EngineSession → SessionState → EngineSession
set_state e state = record e { state = state; notices = e.notices ++ on_state_changed state ∷ [] }

-- `running.swap(true)`
abbrev pub claim : EngineSession → EngineSession × Result EngineError (Unit {0})
claim e = (record e { running = true }, if e.running then err busy else ok tt)

abbrev pub spawn : EngineSession → EngineSession
spawn e = record e {
  task = some e.next;
  tasks = e.tasks ++ record { id = e.next; phase = pending } ∷ [];
  next = e.next + 1;
}

-- What `bind_host` does once it has the session.
abbrev bind_claimed : Binding → EngineSession → EngineSession × Result EngineError HostHandle
bind_claimed b e = elim b.identity [
  | none ↦ (e, err engine)
  | some fingerprint ↦
      let bound : EngineSession × Result EngineError HostHandle = elim b.port [
        | none ↦ (e, err engine)
        | some port ↦
            (e, ok (record { port = port; fingerprint_hex = fingerprint_hex fingerprint }))
      ] in
      if b.listens then bound else (record e { running = false }, err engine)
]

abbrev pub bind_host : Binding → EngineSession → EngineSession × Result EngineError HostHandle
bind_host b e =
    let (claimed, outcome) = claim e in
    elim outcome [
      | ok _ ↦ bind_claimed b claimed
      | err x ↦ (claimed, err x)
      | panic ↦ (claimed, panic)
    ]

abbrev after_bind :
    EngineSession × Result EngineError HostHandle → EngineSession × Result EngineError HostHandle
after_bind (e, ok handle) = (spawn (set_state e listening), ok handle)
after_bind (e, err x) = (e, err x)
after_bind (e, panic) = (e, panic)

-- The two host roles differ only in the future that runs.
unfoldable pub start_host_receiving :
    Binding → EngineSession → EngineSession × Result EngineError HostHandle
start_host_receiving b e = after_bind (bind_host b e)

unfoldable pub start_host_sending :
    Binding → EngineSession → EngineSession × Result EngineError HostHandle
start_host_sending b e = after_bind (bind_host b e)

abbrev after_claim :
    EngineSession × Result EngineError (Unit {0}) → EngineSession × Result EngineError (Unit {0})
after_claim (e, ok u) = (spawn (set_state e transferring), ok tt)
after_claim (e, err x) = (e, err x)
after_claim (e, panic) = (e, panic)

-- The fingerprint is read before the session is claimed.
abbrev after_parse :
    Result Fault Bytes → EngineSession → EngineSession × Result EngineError (Unit {0})
after_parse (ok pinned) e = after_claim (claim e)
after_parse (err fault) e = (e, err (bad_fingerprint fault))
after_parse panic e = (e, panic)

abbrev start_client : Bytes → EngineSession → EngineSession × Result EngineError (Unit {0})
start_client hex e = after_parse (parse_fingerprint hex) e

unfoldable pub start_client_sending :
    Bytes → EngineSession → EngineSession × Result EngineError (Unit {0})
start_client_sending hex e = start_client hex e

unfoldable pub start_client_receiving :
    Bytes → EngineSession → EngineSession × Result EngineError (Unit {0})
start_client_receiving hex e = start_client hex e

-- An aborted task ends unless its transfer has come to an outcome.
abbrev aborted : Phase → List Task → Task → List Task
aborted pending rest t = rest
aborted (settled o) rest t = t ∷ rest

pub abort : ℕ → List Task → List Task
abort id [] = []
abort id (t ∷ ts) = let rest = abort id ts in if t.id == id then aborted t.phase ts t else t ∷ rest

abbrev abort_handle : Option ℕ → EngineSession → EngineSession
abort_handle none e = e
abort_handle (some id) e = record e { task = none; tasks = abort id e.tasks }

-- `running.swap(false)`
abbrev after_abort : Bool → EngineSession → EngineSession
after_abort true e = set_state (record e { running = false }) cancelled
after_abort false e = e

unfoldable pub cancel : EngineSession → EngineSession
cancel e = after_abort e.running (abort_handle e.task e)

-- The transfer of a task comes to its outcome.
abbrev settled_by : Phase → Outcome → Phase
settled_by pending o = settled o
settled_by (settled p) o = settled p

pub settle : ℕ → Outcome → List Task → List Task
settle id o [] = []
settle id o (t ∷ ts) =
    let rest = settle id o ts in
    if t.id == id then record t { phase = settled_by t.phase o } ∷ ts else t ∷ rest

-- `Reporter::finished` and `Reporter::failed`: the session's own `state` is not told.
abbrev pub report : Outcome → EngineSession → EngineSession
report (stats bytes) e = record e {
  running = false;
  notices = e.notices ++ on_state_changed completed ∷ on_finished bytes ∷ [];
}
report failure e = record e {
  running = false;
  notices = e.notices ++ on_state_changed failed ∷ on_error ∷ [];
}

-- The task that has an outcome, taken out of the others.
abbrev outcome_of : Phase → Option Outcome
outcome_of pending = none
outcome_of (settled o) = some o

abbrev keep : Task → Option (Outcome × List Task) → Option (Outcome × List Task)
keep t none = none
keep t (some (o, ts)) = some (o, t ∷ ts)

abbrev with_rest : List Task → Option Outcome → Option (Outcome × List Task)
with_rest ts none = none
with_rest ts (some o) = some (o, ts)

pub take_settled : ℕ → List Task → Option (Outcome × List Task)
take_settled id [] = none
take_settled id (t ∷ ts) =
    let rest = take_settled id ts in
    if t.id == id then with_rest ts (outcome_of t.phase) else keep t rest

abbrev reported : EngineSession → Option (Outcome × List Task) → EngineSession
reported e none = e
reported e (some (o, ts)) = report o (record e { tasks = ts })

-- The calls of the platform, and what the runtime does with the tasks.
pub data Event : Type 0 where
  host_receiving : Binding → Event
  host_sending : Binding → Event
  client_sending : Bytes → Event
  client_receiving : Bytes → Event
  cancels : Event
  settles : ℕ → Outcome → Event
  reports : ℕ → Event

unfoldable pub step : EngineSession → Event → EngineSession
step e (host_receiving b) = (start_host_receiving b e).0
step e (host_sending b) = (start_host_sending b e).0
step e (client_sending hex) = (start_client_sending hex e).0
step e (client_receiving hex) = (start_client_receiving hex e).0
step e cancels = cancel e
step e (settles id o) = record e { tasks = settle id o e.tasks }
step e (reports id) = reported e (take_settled id e.tasks)

unfoldable pub run : EngineSession → List Event → EngineSession
run e [] = e
run e (x ∷ xs) = run (step e x) xs
