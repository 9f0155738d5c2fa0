-- ===== src/Core/Errors.antt =====
-- core/crates/aetherlink-core/src/lib.rs: the errors of the crate. A text is a constructor here.
use speeed.Base.{ℕ}
use speeed.Base.Bytes.{Bytes}
use speeed.Proto.Errors

-- The texts of `Error::Protocol`: on a data stream, of `split_hashes`, on a control stream, and of
-- what a receiver refuses in a hello or an offer.
pub data Complaint : Type 0 where
  unexpected_message : Complaint
  unknown_file_id : ℕ → Complaint
  not_at_own_offset : ℕ → ℕ → Complaint
  interleaved_files : Complaint
  out_of_order : ℕ → ℕ → Complaint
  overruns_chunk : Complaint
  wrong_hash_bytes : ℕ → ℕ → Complaint
  oversized_control : ℕ → Complaint
  not_a_control_frame : Complaint
  undecodable : Complaint
  no_body : Complaint
  peer_speaks : ℕ → Complaint
  stream_count_refused : ℕ → ℕ → Complaint
  expected_hello : Complaint
  expected_offer : Complaint
  expected_accept : Complaint
  expected_complete : Complaint
  same_path : Bytes → Complaint
  above_maximum : ℕ → Complaint
  root_does_not_match : Bytes → Complaint

pub data CoreError : Type 0 where
  protocol : Complaint → CoreError
  io : CoreError
  wire : Errors.Error → CoreError
  chunk_verification_failed : ℕ → CoreError
  tls : CoreError
  incomplete : CoreError
  peer_aborted : Bytes → CoreError
