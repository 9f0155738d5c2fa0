-- ===== src/Ffi/Session/Starts.antt =====
-- What a call that starts a session does, by the branch it takes.
use speeed.Base.{
  ℕ, ◌+◌, ◌≡◌, refl, Bool, true, false, Option, none, some, List, [], ◌∷◌, ◌++◌, Result, ok, err,
  panic,
}
use speeed.Base.Bytes.{Bytes}
use speeed.Ffi.Fingerprint.{Fault, parse_fingerprint}
use speeed.Ffi.Session.{
  EngineSession, Binding, Task, Notice, SessionState, on_state_changed, pending,
  start_host_receiving, start_host_sending, start_client_sending, start_client_receiving,
  after_parse, after_bind, bind_host, after_claim, claim,
}

-- Nothing is spawned, or a pending task is, in a session that was not running.
pub data Started (e e' : EngineSession) : Type 0 where
  refused :
      e'.tasks ≡ e.tasks
      → e'.next ≡ e.next
      → e'.notices ≡ e.notices
      → (e.running ≡ true → e'.running ≡ true)
      → Started e e'
  spawned :
      (s : SessionState)
      → e.running ≡ false
      → e'.running ≡ true
      → e'.tasks ≡ e.tasks ++ record { id = e.next; phase = pending } ∷ []
      → e'.next ≡ e.next + 1
      → e'.notices ≡ e.notices ++ on_state_changed s ∷ []
      → Started e e'

module _ (s : SessionState) (task : Option ℕ) (tasks : List Task) (next : ℕ)
    (notices : List Notice) where
  abbrev engine_with : Bool → EngineSession
  engine_with running = record {
    state = s;
    running = running;
    task = task;
    tasks = tasks;
    next = next;
    notices = notices;
  }

  bind_branches :
      (running : Bool) (identity : Option Bytes) (listens : Bool) (port : Option ℕ)
      → Started
          (engine_with running)
          (after_bind (
            bind_host
              (record { identity = identity; listens = listens; port = port })
              (engine_with running))).0
  bind_branches true identity listens port = refused refl refl refl (λ h. refl)
  bind_branches false none listens port = refused refl refl refl (λ h. refl)
  bind_branches false (some f) false port = refused refl refl refl (λ h. cc)
  bind_branches false (some f) true none = refused refl refl refl (λ h. refl)
  bind_branches false (some f) true (some p) = spawned _ refl refl refl refl refl

  claim_branches :
      (running : Bool) → Started (engine_with running) (after_claim (claim (engine_with running))).0
  claim_branches true = refused refl refl refl (λ h. refl)
  claim_branches false = spawned _ refl refl refl refl refl

pub start_host_receiving-Started :
    (b : Binding) (e : EngineSession) → Started e (start_host_receiving b e).0
unfolding start_host_receiving
start_host_receiving-Started b e =
    bind_branches e.state e.task e.tasks e.next e.notices e.running b.identity b.listens b.port

pub start_host_sending-Started :
    (b : Binding) (e : EngineSession) → Started e (start_host_sending b e).0
unfolding start_host_sending
start_host_sending-Started b e =
    bind_branches e.state e.task e.tasks e.next e.notices e.running b.identity b.listens b.port

client_branches :
    (parsed : Result Fault Bytes) (e : EngineSession) → Started e (after_parse parsed e).0
client_branches (ok pin) e = claim_branches e.state e.task e.tasks e.next e.notices e.running
client_branches (err fault) e = refused refl refl refl (λ h. h)
client_branches panic e = refused refl refl refl (λ h. h)

pub start_client_sending-Started :
    (hex : Bytes) (e : EngineSession) → Started e (start_client_sending hex e).0
unfolding start_client_sending
start_client_sending-Started hex e = client_branches (parse_fingerprint hex) e

pub start_client_receiving-Started :
    (hex : Bytes) (e : EngineSession) → Started e (start_client_receiving hex e).0
unfolding start_client_receiving
start_client_receiving-Started hex e = client_branches (parse_fingerprint hex) e
