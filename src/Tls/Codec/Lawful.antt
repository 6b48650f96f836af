-- ===== src/Tls/Codec/Lawful.antt =====
-- tls_codec/src/lib.rs: what the operations of a type that implements the traits owe one another.
use formats.Common.{ℕ, ◌≡◌, List, ◌++◌, ok, length, All, IsByte}
use formats.Tls.Data.{Codec}

module _ {A : Type 0} (c : Codec A) (InRange : A → Type 0) (octets : A → List ℕ) where
  -- On values in range, the octets are written, are as many as announced, and are read as the value,
  -- whatever follows them.
  pub record Lawful : Type 0 where
    pub written : (a : A) → InRange a → c.tls_serialize_bytes a ≡ ok (octets a)
    pub announced : (a : A) → InRange a → c.tls_serialized_len a ≡ length (octets a)
    pub reads :
        (a : A) (rest : List ℕ)
        → InRange a
        → c.tls_deserialize_bytes (octets a ++ rest) ≡ ok (a, rest)

  -- Nothing but the octets of a value in range is read as that value.
  pub record Canonical : Type 0 where
    pub only :
        (bytes : List ℕ) (a : A) (rest : List ℕ)
        → All IsByte bytes
        → c.tls_deserialize_bytes bytes ≡ ok (a, rest)
        → InRange a × (bytes ≡ octets a ++ rest)
