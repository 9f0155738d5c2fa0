-- ===== src/Core/Progress.antt =====
-- core/crates/aetherlink-core/src/progress.rs: the throttle in front of a sink for progress. Several
-- workers call it at once. What a call does happens in one step at its `compare_exchange`; what it
-- loaded before that, and the clock it read, are parts of the call and may be out of date.
pub mod Spacing
mod Tests
use speeed.Base.{
  ℕ, ◌-◌, ◌^◌, Bool, true, false, not, ◌&&◌, ltb, leb, ◌==◌, if◌then◌else◌, List, [], ◌∷◌,
}

-- u64::MAX
abbrev pub never : ℕ
never = 2 ^ 64 - 1

pub record Throttled : Type 0 where
  pub interval : ℕ
  pub last_emit_micros : ℕ

abbrev pub new : ℕ → Throttled
new interval = record { interval = interval; last_emit_micros = never }

-- A call of `on_progress`: its arguments, the clock, and what it loaded from `last_emit_micros`.
pub record Call : Type 0 where
  pub bytes_done : ℕ
  pub bytes_total : ℕ
  pub now : ℕ
  pub last : ℕ

abbrev pub is_final : Call → Bool
is_final c = ltb 0 c.bytes_total && leb c.bytes_total c.bytes_done

abbrev pub too_early : Throttled → Call → Bool
too_early t c = not (c.last == never) && ltb (c.now - c.last) t.interval

-- The throttle after the call, and whether the inner sink is called.
unfoldable pub on_progress : Throttled → Call → Throttled × Bool
on_progress t c =
    if is_final c
    then (t, true)
    else if too_early t c
    then (t, false)
    else if t.last_emit_micros == c.last
    then (record t { last_emit_micros = c.now }, true)
    else (t, false)

-- The calls that reach the inner sink, of a sequence of calls.
unfoldable pub delivered : Throttled → List Call → List Call
delivered t [] = []
delivered t (c ∷ cs) =
    let (t', emitted) = on_progress t c in
    let rest = delivered t' cs in if emitted then c ∷ rest else rest
