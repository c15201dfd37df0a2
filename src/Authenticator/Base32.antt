-- ===== src/Authenticator/Base32.antt =====
-- backend/src/authenticator/authenticator_service.cpp: DecodeBase32 and NormalizeSecret.
pub mod Number
use space_station.Prelude.{
  Bool, Bool-cases, List, Option, Option-cases, Result, String, [], ap, ap₂, arith, false, fun_ext,
  guard, if◌then◌else◌, inl, inr, leb, length, ltb, map, max, min, none, not, ok, or_throw, refl,
  some, subst, suc, sym, true, zero, ℕ, ◌%◌, ◌&&◌, ◌*◌, ◌++◌, ◌+◌, ◌-◌, ◌/◌, ◌<◌, ◌==◌, ◌>>=◌, ◌>>◌,
  ◌^◌, ◌||◌, ◌↔◌, ◌∙◌, ◌∷◌, ◌≡◌, ◌≢◌, ◌≤◌, ◌⊎◌,
}
use space_station.Prelude.Bytes.{Bytes}

pub data Error : Type 0 where
  invalid_base32 secret_too_short unsupported_algorithm invalid_parameters hmac_failed : Error
  invalid_digest empty_name invalid_digits invalid_period empty_secret empty_id : Error
  incomplete_entry : Error

-- `raw == ' ' || raw == '-' || raw == '='`
unfoldable pub is_skipped : ℕ → Bool
is_skipped raw = raw == b' ' || raw == b'-' || raw == b'='

-- std::toupper in the C locale.
unfoldable pub to_upper : ℕ → ℕ
to_upper c = if leb b'a' c && leb c b'z' then c - 32 else c

-- The value of a character, or none where the code has -1.
unfoldable pub digit_value : ℕ → Option ℕ
digit_value character =
    if leb b'A' character && leb character b'Z'
    then some (character - b'A')
    else if leb b'2' character && leb character b'7'
    then some (character - b'2' + 26)
    else none

-- `accumulator`, an unsigned int of 32 bits, `bits` and `output`.
pub record Decoder : Type 0 where
  pub accumulator : ℕ
  pub bits : ℕ
  pub output : Bytes

abbrev pub empty_decoder : Decoder
empty_decoder = record { accumulator = 0; bits = 0; output = [] }

-- The shift makes room for the value, so `|` adds.
unfoldable pub push_value : Decoder → ℕ → Decoder
push_value d value =
    let accumulator = (d.accumulator * 2 ^ 5) % 2 ^ 32 + value in
    let bits = d.bits + 5 in
    if leb 8 bits
    then record {
      accumulator = accumulator;
      bits = bits - 8;
      output = d.output ++ (accumulator / 2 ^ (bits - 8)) % 256 ∷ [];
    }
    else record { accumulator = accumulator; bits = bits; output = d.output }

unfoldable pub decode_loop : Decoder → Bytes → Result Error Decoder
decode_loop d [] = ok d
decode_loop d (raw ∷ rest) =
    if is_skipped raw
    then decode_loop d rest
    else or_throw (digit_value (to_upper raw)) invalid_base32 >>= λ value.
        decode_loop (push_value d value) rest

unfoldable pub decode_base32 : Bytes → Result Error Bytes
decode_base32 input = do
  d ← decode_loop empty_decoder input
  guard (not (ltb (length d.output) 10)) secret_too_short
  ok d.output

-- The loop of NormalizeSecret.
unfoldable pub normalized : Bytes → Bytes
normalized [] = []
normalized (raw ∷ rest) =
    let later = normalized rest in if is_skipped raw then later else to_upper raw ∷ later

unfoldable pub normalize_secret : Bytes → Result Error Bytes
normalize_secret input = do decoded ← decode_base32 (normalized input); ok (normalized input)
