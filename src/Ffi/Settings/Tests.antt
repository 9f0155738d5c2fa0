-- ===== src/Ffi/Settings/Tests.antt =====
-- core/crates/aetherlink-ffi/src/lib.rs: the theorems on configurations at concrete inputs.
use speeed.Base.{◌≤◌, ◌<◌, ◌≡◌, ◌≢◌, ◌⊎◌, some}
use speeed.Ffi.Settings.{default, resolved_stream_count, resolved_stream_count_bounds}

resolved_stream_count_bounds_example :
    (0 < resolved_stream_count default (some 16))
    × ((default.stream_count ≢ 0) × (resolved_stream_count default (some 16) ≡ default.stream_count)
        ⊎ ((default.stream_count ≡ 0)
            × (2 ≤ resolved_stream_count default (some 16))
            × (resolved_stream_count default (some 16) ≤ 8)))
resolved_stream_count_bounds_example = resolved_stream_count_bounds default (some 16)
