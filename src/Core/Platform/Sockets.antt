-- ===== src/Core/Platform/Sockets.antt =====
-- What the sockets are set to.
use speeed.Base.{ℕ, ◌≡◌, refl, ◌⊎◌, inl, inr, ◌↔◌, ◌==◌, ==_iff, Bool-cases, ok}
use speeed.Core.Platform.{
  Os, linux, darwin, other_os, Answer, success, failure, to_io, bind_impl, bind_to_interface,
}

to_io-success : (answer : Answer) → to_io answer ≡ ok tt → answer ≡ success
to_io-success success e = refl
to_io-success (failure x) e = cc

bind_impl-ok :
    (os : Os) (answer : Answer) → bind_impl os answer ≡ ok tt → (os ≡ darwin) × (answer ≡ success)
bind_impl-ok linux answer e = cc
bind_impl-ok darwin answer e = (refl, to_io-success answer e)
bind_impl-ok other_os answer e = cc

-- A socket is accepted as bound exactly when no interface was asked for, or when the platform is
-- Darwin and the system call succeeds: elsewhere an index is refused, never ignored.
pub bind_to_interface_iff :
    (os : Os) (answer : Answer) (interface_index : ℕ)
    → bind_to_interface os answer interface_index ≡ ok tt
      ↔ (interface_index ≡ 0) ⊎ ((os ≡ darwin) × (answer ≡ success))
unfolding bind_to_interface
bind_to_interface_iff os answer interface_index = elim (Bool-cases (interface_index == 0)) [
  | inl unset ↦ rw unset (λ _. inl ((==_iff interface_index 0).0 unset), λ _. refl)
  | inr set ↦ rw set (
    λ e. inr (bind_impl-ok os answer e),
    λ p. elim p [
      | inl zero ↦ cc (set, (==_iff interface_index 0).1 zero)
      | inr (d, s) ↦ rw (d, s) refl
    ],
  )
]
