-- ===== src/Ffi/Session/Stuck.antt =====
-- A session that was claimed and never handed back.
use speeed.Base.{
  ℕ, ◌≡◌, ap, ◌∙◌, inl, inr, true, false, Option-cases, none, List, [], ◌∷◌, length, arith,
}
use speeed.Ffi.Session.{
  EngineSession, Binding, Event, host_receiving, host_sending, client_sending, client_receiving,
  cancels, settles, reports, take_settled, reported, start_host_receiving, step, run,
}
use speeed.Ffi.Session.Starts.{
  Started, refused, spawned, start_host_receiving-Started, start_host_sending-Started,
  start_client_sending-Started, start_client_receiving-Started,
}
use speeed.Ffi.Session.Exclusive.{is_cancel, has_cancel, length-settle, take_settled_length}

-- Marked as running, though no task is alive that could hand the session back.
abbrev pub Stuck : EngineSession → Type 0
Stuck e = (e.running ≡ true) × (length e.tasks ≡ 0)

Started-Stuck : {e e' : EngineSession} → Started e e' → Stuck e → Stuck e'
Started-Stuck (refused tasks _ _ up) v = (up v.0, ap length tasks ∙ v.1)
Started-Stuck (spawned s idle _ _ _ _) v = cc (idle, v.0)

reported-Stuck :
    (id : ℕ) (e : EngineSession) → Stuck e → Stuck (reported e (take_settled id e.tasks))
reported-Stuck id e v = elim (Option-cases (take_settled id e.tasks)) [
  | inl nothing ↦ rw nothing v
  | inr ((x, rest), found) ↦ absurd (omega (arith, take_settled_length id e.tasks found, v.1))
]

step-Stuck : (e : EngineSession) (x : Event) → is_cancel x ≡ false → Stuck e → Stuck (step e x)
unfolding step
step-Stuck e (host_receiving b) h v = Started-Stuck (start_host_receiving-Started b e) v
step-Stuck e (host_sending b) h v = Started-Stuck (start_host_sending-Started b e) v
step-Stuck e (client_sending hex) h v = Started-Stuck (start_client_sending-Started hex e) v
step-Stuck e (client_receiving hex) h v = Started-Stuck (start_client_receiving-Started hex e) v
step-Stuck e cancels h v = cc
step-Stuck e (settles id o) h v = (v.0, length-settle id o e.tasks ∙ v.1)
step-Stuck e (reports id) h v = reported-Stuck id e v

run-Stuck :
    (e : EngineSession) (events : List Event)
    → has_cancel events ≡ false
    → Stuck e
    → Stuck (run e events)
unfolding run
run-Stuck e [] h v = v
run-Stuck e (x ∷ xs) h v = run-Stuck (step e x) xs (ground arith) (step-Stuck e x (ground arith) v)

failed_identity :
    (b : Binding) (e : EngineSession)
    → b.identity ≡ none
    → e.running ≡ false
    → length e.tasks ≡ 0
    → Stuck (start_host_receiving b e).0
unfolding start_host_receiving
failed_identity b e none_made idle empty =
    let claimed : (start_host_receiving b e).0 ≡ record e { running = true } = λ k.
      (start_host_receiving (record b { identity = none_made k })
        (record e { running = idle k })).0 in
    (ap (λ t. t.running) claimed, ap (λ t. length t.tasks) claimed ∙ empty)

-- When no identity can be generated for a host, in a session that is not running and has no task, the
-- session stays marked as running with no task in it, whatever is called except `cancel`: it refuses
-- each further transfer.
pub failed_identity_blocks :
    (b : Binding) (e : EngineSession) (events : List Event)
    → b.identity ≡ none
    → e.running ≡ false
    → length e.tasks ≡ 0
    → has_cancel events ≡ false
    → Stuck (run (step e (host_receiving b)) events)
unfolding step
failed_identity_blocks b e events none_made idle empty h =
    run-Stuck (start_host_receiving b e).0 events h (failed_identity b e none_made idle empty)
