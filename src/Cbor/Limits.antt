-- ===== src/Cbor/Limits.antt =====
-- src/format/revision_limits.cpp and revision_error.hpp.
use scpefe.Base.{ℕ, ◌*◌}

pub data RevisionError : Type 0 where
  invalid_argument malformed_cbor limit_exceeded unsupported_format : RevisionError

pub record RevisionLimits : Type 0 where
  pub max_input_bytes : ℕ
  pub max_nesting_depth : ℕ
  pub max_collection_entries : ℕ
  pub max_text_bytes : ℕ
  pub max_byte_string_bytes : ℕ
  pub max_parent_count : ℕ

abbrev pub default_limits : RevisionLimits
default_limits = record {
  max_input_bytes = 32 * 1024 * 1024;
  max_nesting_depth = 8;
  max_collection_entries = 1024;
  max_text_bytes = 8 * 1024 * 1024;
  max_byte_string_bytes = 1024 * 1024;
  max_parent_count = 8;
}
