-- ===== src/Tls/Data.antt =====
-- tls_codec/src/lib.rs: errors, the traits `Size`, `SerializeBytes` and `DeserializeBytes`, and the sums
-- of lengths. The texts of the errors are left out.
use formats.Common.{ℕ, ◌+◌, ◌-◌, ◌^◌, List, [], ◌∷◌, Result, ok, err, ltb, if◌then◌else◌}
pub use formats.Common.{◌>>=◌, ok_inj, err_inj, >>=-ok, >>=-err, >>=_assoc, >>=_same}

pub data TlsError : Type 0 where
  encoding_error invalid_vector_length invalid_write_length invalid_input decoding_error : TlsError
  end_of_stream trailing_data : TlsError
  unknown_value : ℕ → TlsError
  library_error : TlsError

abbrev pub TlsResult : Type 0 → Type 0
TlsResult A = Result A TlsError

-- What a type implements: its length, its bytes, and a value off the front of a slice with the
-- remainder.
pub record Codec (A : Type 0) : Type 0 where
  pub tls_serialized_len : A → ℕ
  pub tls_serialize_bytes : A → TlsResult (List ℕ)
  pub tls_deserialize_bytes : List ℕ → TlsResult (A × List ℕ)

-- `isize::MAX`
abbrev max_isize : ℕ
max_isize = 2 ^ 63 - 1

-- Lengths of values in memory, whose sum stays far below the end of a usize.
unfoldable pub checked_capacity : ℕ → TlsResult ℕ
checked_capacity len = if ltb max_isize len then err invalid_vector_length else ok len

unfoldable pub checked_alloc_len : ℕ → ℕ → TlsResult ℕ
unfolding checked_capacity
checked_alloc_len a b = checked_capacity (if ltb (a + b) (2 ^ 64) then a + b else 2 ^ 64 - 1)

abbrev exact : {A : Type 0} → A × List ℕ → TlsResult A
exact (a, []) = ok a
exact (a, b ∷ remainder) = err trailing_data

unfoldable pub tls_deserialize_exact_bytes : {A : Type 0} → Codec A → List ℕ → TlsResult A
tls_deserialize_exact_bytes c bytes = c.tls_deserialize_bytes bytes >>= exact
