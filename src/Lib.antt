-- ===== src/Lib.antt =====
-- A verification library of the `formats` repository, Rust crates for encodings and cryptographic
-- message formats. It models the core of the crate `der`, ASN.1 DER over byte slices, in its default
-- features (no `ber`), the crate `const-oid`, object identifiers, the core of `tls_codec`, the
-- presentation language of TLS over byte slices, `base16ct`, the alphabets of `base32ct` and the
-- block codec of `base64ct`, text without branches on its bytes, and `tai64`, labels of moments.
--
-- How the parts interact. A message is read by a `SliceReader` (der/src/reader/slice.rs), a slice
-- with a flag for failure and a `Position` (der/src/reader/position.rs) that knows the window of the
-- current value and its nesting depth. A `Header` (der/src/header.rs) is a `Tag` (der/src/tag.rs)
-- and a `Length` (der/src/length.rs), each decoded from the reader and encoded to a `SliceWriter`
-- (der/src/writer/slice.rs). A type with a tag of its own implements `FixedTag`, `DecodeValue` and
-- `EncodeValue`; `Decode` and `Encode` (der/src/decode.rs, der/src/encode.rs) read its header, read
-- its contents through `read_nested`, and give `from_der` and `to_der`.
--
-- An `ObjectIdentifier` (const-oid/src/lib.rs) is an array of MAX_SIZE bytes with a length. An
-- `Encoder` (const-oid/src/encoder.rs) writes it arc by arc; a `Parser` (const-oid/src/parser.rs)
-- drives the encoder over text; the iterator `Arcs` (const-oid/src/arcs.rs) takes the arcs out of
-- the bytes again, and checks bytes from elsewhere. In tls_codec a type implements `Size`,
-- `SerializeBytes` and `DeserializeBytes` (tls_codec/src/lib.rs); a vector of such a type stands
-- behind its length, a `TlsVarInt` (tls_codec/src/varint.rs) or an integer of fixed width.
--
-- Files, by the code that they model:
--   Common        the shared names, Boolean tests, lists, results and facts on bit operations;
--                 Common.BigEndian and Common.Base128 numbers as bytes and as groups of seven bits,
--                 Common.Int16 numbers of type i16, Common.Symbols alphabets as lists
--   Der.Data      tags, classes, error kinds, errors: der/src/tag.rs, tag/class.rs, error.rs
--   Der.Length    arithmetic of lengths; Der.Length.Codec their octets: der/src/length.rs
--   Der.Tag       identifier octets: der/src/tag.rs
--   Der.Header    der/src/header.rs, with `Tag::assert_eq` and `Length::for_tlv`
--   Der.Position  der/src/reader/position.rs
--   Der.Bytes     `BytesRef`: der/src/bytes.rs
--   Der.Reader    `SliceReader` and the provided methods of `Reader`: der/src/reader.rs
--   Der.Writer    `SliceWriter` and `Writer`: der/src/writer.rs, writer/slice.rs
--   Der.Value     the blanket `Decode` and `Encode`, `from_der`, `to_der`; Der.Value.Laws the laws
--                 that a type's operations owe, and what whole messages get from them
--   Der.Fields    peeking, `tlv_bytes` and `sequence`: der/src/reader.rs
--   Der.Asn1      bool, Null, OctetStringRef, UintRef and u8 to u128: der/src/asn1
--   Oid           const-oid/src: Oid.Data errors and arrays, Oid.Arcs the iterator, Oid.Encoder,
--                 Oid.Parser, Oid.Identifier the operations of lib.rs
--   Tls           tls_codec/src: Tls.Data errors and traits, Tls.VarInt varint.rs, Tls.Codec the types
--                 of primitives.rs, quic_vec.rs and tls_vec.rs; Tls.Codec.Lawful what a type owes
--   Base16        base16ct/src: lengths, digits in two's complement, buffers, strings, the formatter
--   Base32        base32ct/src/alphabet.rs, alphabet/rfc4648.rs: one character
--   Base64        base64ct/src: characters and blocks of alphabet.rs; Base64.Alphabets the eight of
--                 base64ct/src/alphabet; Base64.Codec whole texts, encoding.rs; Base64.Coder and
--                 Base64.Blocks the laws that the alphabets fulfil
--   Tai64         tai64/src/lib.rs: labels, their bytes, Unix time, durations
--   Tests         runs on concrete messages and texts
--
-- A function of the code has the same name here, in snake_case, in the module of its type. A method
-- by `&mut self` takes the state and returns its result with the new state, which an error leaves as
-- the code left it; `Decoder` and `Encoder` chain such methods as `?` does. A u8 or u32 is a natural
-- number, with the wrap-around and the overflow check of the code written out; `IsByte`, `IsTag` and
-- `IsLength` are the bounds that the types give. A `usize` of der is at least 32 bits wide and
-- does not overflow. `debug_assert!` is left out.
--
-- base16ct, base32ct, base64ct and tai64 stand apart from der. In tai64 an operation that overflows
-- is `none`, the panic of a build with overflow checks; a `SystemTime` is its distance from the Unix
-- epoch, and the reading of the clock is left out.
--
-- In base16ct and base64ct a function on a buffer returns its result with the buffer. The three
-- cases of base16ct share one text of the loops, which takes the decoder or the encoder of a digit;
-- an alphabet of base64ct is a record of its constants and of the bits that its blocks take. A usize
-- of both has 64 bits; the length of a hexadecimal text wraps, and `none` stands for the panic of an
-- allocation of more than 2 ^ 63 - 1 bytes.
--
-- In const-oid MAX_SIZE is the length of the array, a parameter, and a panic of the iterator is
-- `none`. Oid.Arcs leaves out the checks of the sums of positions; Oid.Arcs.Checked has the same
-- iterator with these checks. In tls_codec a target of 64 bits is taken, without debug assertions and
-- overflow checks; the feature `mls` is a parameter, and the texts of the errors are left out.
--
-- Bounds and fuel. `drain` has as many rounds as bytes, which is enough since each round takes at
-- least one. The loop over a tag number has the five rounds of the code. `u32::ilog2` halves 31
-- times. The nesting depth is at most 64, as in the code. The iterator over arcs is called two times
-- more than there are bytes: once for each byte at most, once more since the first byte holds two
-- arcs, and once at the end. The loop over the elements of a vector has as many rounds as announced
-- bytes, since an element of no bytes is an error; a reader that leaves more bytes than it was given
-- wraps the subtraction, and the rounds are then no bound on the code. Ten digits hold every u32.
--
-- Not modelled: indefinite lengths and the other BER rules, PEM, owned twins of borrowed types, text
-- forms of errors, the other ASN.1 types, the derive macros, the generated table of identifiers, the
-- decoding in place and the buffered decoder and encoder of base64ct, the texts of base32ct, the
-- traits of tls_codec over std::io, its tuples and strings, and the other crates of the repository.
pub mod Base16
pub mod Base32
pub mod Base64
pub mod Common
pub mod Der
pub mod Oid
pub mod Tls
pub mod Tai64
pub mod Tests
