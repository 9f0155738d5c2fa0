-- ===== src/Core/Offer/Tests.antt =====
-- core/crates/aetherlink-core/src/recv.rs: the theorems at concrete inputs.
use speeed.Base.{◌≡◌, ◌<◌, ◌≤◌, [], ◌∷◌, All}
use speeed.Base.Sums.{sum}
use speeed.Proto.Frame.{protocol_version}
use speeed.Core.Offer.Counts.{Distinct, handshake-bounds}
use speeed.Core.Recv.Preserved.{AllValid}
use speeed.Core.Control.{hello}
use speeed.Core.Offer.Accepts.{handshake-AllValid}
use speeed.Core.Offer.Sample.{
  prefix, setup, entry, one_file, greeting, accepted, hands_shaken, entry-Sound,
}

handshake-AllValid_example : AllValid prefix accepted.files
handshake-AllValid_example =
    handshake-AllValid setup (hello greeting) one_file 1 accepted entry-Sound hands_shaken

handshake-bounds_example :
    ((1 ≡ protocol_version)
      × (greeting.stream_count ≡ 1)
      × (0 < 1)
      × (1 ≤ setup.config.max_streams))
    × (accepted.accepted ≡ entry.file_id ∷ [])
    × (accepted.total_bytes ≡ sum (entry.size_bytes ∷ []))
    × All (λ x. x.size_bytes ≤ setup.config.max_file_bytes) one_file.files
    × Distinct accepted.seen_paths
handshake-bounds_example = handshake-bounds setup greeting one_file 1 accepted hands_shaken
