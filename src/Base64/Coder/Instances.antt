-- ===== src/Base64/Coder/Instances.antt =====
-- The eight alphabets of base64ct/src/alphabet.
use formats.Common.{
  ℕ, ◌<◌, ◌≡◌, ◌≢◌, refl, arith, Bool, true, false, not, ◌&&◌, ◌==◌, ==→eq, ltb, leb, IsByte,
}
use formats.Common.Bits.{holds_below, holds_below_at}
use formats.Base64.{Alphabet, decode_6bits, encode_6bits}
use formats.Base64.Alphabets.{
  base64, base64_unpadded, base64_url, base64_url_unpadded, base64_pbkdf2, base64_bcrypt,
  base64_crypt, base64_sha_crypt,
}
use formats.Base64.Blocks.{IsPacking}
use formats.Base64.Blocks.Standard.{default_packing-IsPacking}
use formats.Base64.Blocks.ShaCrypt.{sha_crypt_packing-IsPacking}
use formats.Base64.Codec.{pad}
use formats.Base64.Coder.{IsCoder}

abbrev is_symbol : Alphabet → ℕ → Bool
is_symbol a n =
    decode_6bits a (encode_6bits a n) == n
    && leb (encode_6bits a n) 255
    && not (encode_6bits a n == pad)

all_three : (p q r : Bool) → (p && q && not r) ≡ true → (p ≡ true) × (q ≡ true) × (r ≡ false)
all_three true true false h = (refl, refl, refl)
all_three true true true h = absurd (ground arith)
all_three true false r h = absurd (ground arith)
all_three false q r h = absurd (ground arith)

IsByte-test : (c : ℕ) → leb c 255 ≡ true → IsByte c
IsByte-test c h = ground arith

differs : (c d : ℕ) → (c == d) ≡ false → c ≢ d
differs c d h e = ground arith

below : (c n : ℕ) → ltb c n ≡ true → c < n
below c n h = ground arith

IsCoder-table :
    (a : Alphabet)
    → IsPacking a.packing
    → holds_below (is_symbol a) 64 ≡ true
    → ltb (decode_6bits a b'A') 64 ≡ true
    → IsCoder a
IsCoder-table a packing all filler =
    let parts : (n : ℕ)
        → n < 64
        → (((decode_6bits a (encode_6bits a n) == n) ≡ true)
            × (leb (encode_6bits a n) 255 ≡ true)
            × ((encode_6bits a n == pad) ≡ false)) =
      λ n h.
        all_three (decode_6bits a (encode_6bits a n) == n) (leb (encode_6bits a n) 255)
          (encode_6bits a n == pad) (holds_below_at (is_symbol a) 64 n h all) in
    record {
      packing = packing;
      inverse = λ n h. ==→eq (decode_6bits a (encode_6bits a n)) n (parts n h).0;
      byte = λ n h. IsByte-test (encode_6bits a n) (parts n h).1;
      no_pad = λ n h. differs (encode_6bits a n) pad (parts n h).2;
      filler = below (decode_6bits a b'A') 64 filler;
    }

pub base64-IsCoder : IsCoder base64
unfolding decode_6bits encode_6bits
base64-IsCoder = IsCoder-table base64 default_packing-IsPacking refl refl

pub base64_unpadded-IsCoder : IsCoder base64_unpadded
unfolding decode_6bits encode_6bits
base64_unpadded-IsCoder = IsCoder-table base64_unpadded default_packing-IsPacking refl refl

pub base64_url-IsCoder : IsCoder base64_url
unfolding decode_6bits encode_6bits
base64_url-IsCoder = IsCoder-table base64_url default_packing-IsPacking refl refl

pub base64_url_unpadded-IsCoder : IsCoder base64_url_unpadded
unfolding decode_6bits encode_6bits
base64_url_unpadded-IsCoder = IsCoder-table base64_url_unpadded default_packing-IsPacking refl refl

pub base64_pbkdf2-IsCoder : IsCoder base64_pbkdf2
unfolding decode_6bits encode_6bits
base64_pbkdf2-IsCoder = IsCoder-table base64_pbkdf2 default_packing-IsPacking refl refl

pub base64_bcrypt-IsCoder : IsCoder base64_bcrypt
unfolding decode_6bits encode_6bits
base64_bcrypt-IsCoder = IsCoder-table base64_bcrypt default_packing-IsPacking refl refl

pub base64_crypt-IsCoder : IsCoder base64_crypt
unfolding decode_6bits encode_6bits
base64_crypt-IsCoder = IsCoder-table base64_crypt default_packing-IsPacking refl refl

pub base64_sha_crypt-IsCoder : IsCoder base64_sha_crypt
unfolding decode_6bits encode_6bits
base64_sha_crypt-IsCoder = IsCoder-table base64_sha_crypt sha_crypt_packing-IsPacking refl refl
