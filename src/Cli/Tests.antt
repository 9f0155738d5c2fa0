-- ===== src/Cli/Tests.antt =====
-- core/crates/aetherlink-cli/src/main.rs: the theorem and a run at concrete inputs.
use speeed.Base.{◌≡◌, refl, some, none, [], ◌∷◌, false, ok}
use speeed.Core.Config
use speeed.Cli.{Tuning, main, recv, receive}
use speeed.Cli.Payload.{xorshift, fill, write_from, write_source, Writes, write_source-Writes}

abbrev defaults : Tuning
defaults = record {
  streams = 8;
  frame_bytes = 262144;
  chunk_bytes = 4194304;
  keep_read_pages = false;
}

receives :
    main (λ p. some p) (λ p. none) (recv 52080 [] defaults) ≡ ok (receive 52080 [] Config.default)
unfolding main
receives = refl

-- Blocks of eight bytes here.
ten_bytes : write_from 11 1 1 [] 10 ≡ some (65 ∷ 32 ∷ 130 ∷ 64 ∷ 0 ∷ 0 ∷ 0 ∷ 0 ∷ 65 ∷ 20 ∷ [])
unfolding write_from fill xorshift
ten_bytes = refl

write_source-Writes_example : Writes 3 (write_source 3)
write_source-Writes_example = write_source-Writes 3
