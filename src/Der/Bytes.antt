-- ===== src/Der/Bytes.antt =====
-- der/src/bytes.rs: byte slices whose length is a `Length`.
use formats.Common.{ℕ, ◌%◌, ◌^◌, List, ok, err, and_then, leb, if◌then◌else◌, length, take}
use formats.Der.Data.{Length, DerResult}
use formats.Der.Length.{new_usize}
use formats.Der.Position.{incomplete_error}

-- `BytesRef::new`
unfoldable pub new : List ℕ → DerResult (List ℕ)
new slice = and_then (new_usize (length slice)) (λ _. ok slice)

-- `self.0.len() as u32`
unfoldable pub slice_len : List ℕ → Length
slice_len bytes = length bytes % 2 ^ 32

unfoldable pub prefix : List ℕ → Length → DerResult (List ℕ)
prefix bytes n =
    if leb n (length bytes) then ok (take n bytes) else err (incomplete_error (slice_len bytes))
