-- ===== src/Der/Value/Laws.antt =====
-- What a type's operations owe one another, and what whole messages get from it.
pub mod Encoding
pub mod Decoding
pub mod Messages
use formats.Common.{false, ℕ, ◌+◌, ◌≡◌, ok, List, ◌++◌, length, All, IsByte}
use formats.Der.Data.{Length, Tag, is_constructed}
use formats.Der.Header
use formats.Der.Header.{Header}
use formats.Der.Header.Octets.{header_octets}
use formats.Der.Length.{IsLength}
use formats.Der.Reader.{SliceReader}
use formats.Der.Reader.Keeps.{Safe}
use formats.Der.Reader.Ready.{IsValid, Ready, Reads, skip}
use formats.Der.Tag.Octets.{IsTag}
use formats.Der.Value.{Value}
use formats.Der.Writer.Room.{Writes}

-- `octets` are the content octets, for the values that `Fits` admits.
pub record IsValue {A : Type 0} (v : Value A) (Fits : A → Type 0) (octets : A → List ℕ)
    : Type 0 where
  pub tag_fits : IsTag v.fixed_tag
  pub announces : (a : A) → Fits a → v.value_len a ≡ ok (length (octets a))
  pub writes : (a : A) → Fits a → Writes (v.encode_value a) (octets a)
  pub reads :
      (a : A)
      → Fits a
      → IsLength (length (octets a))
      → Reads (v.decode_value (Header.new v.fixed_tag (length (octets a)))) (octets a) a
  pub parses :
      (h : Header) (r : SliceReader) (a : A) (r' : SliceReader)
      → h.tag ≡ v.fixed_tag
      → r.failed ≡ false
      → IsValid r
      → All IsByte r.bytes
      → v.decode_value h r ≡ (ok a, r')
      → Fits a × (rest : List ℕ) × Ready r (octets a ++ rest) × (r' ≡ skip r (length (octets a)))
  pub safe : (h : Header) → Safe (v.decode_value h)

-- Tag, length and contents.
abbrev pub tlv_octets : Tag → List ℕ → List ℕ
tlv_octets t contents = header_octets t (length contents) ++ contents
