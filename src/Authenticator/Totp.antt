-- ===== src/Authenticator/Totp.antt =====
-- backend/src/authenticator/authenticator_service.cpp: GenerateTotp. OpenSSL's HMAC is a parameter. The
-- seconds are those since 1970, and a period or a number of digits below 0 is refused like 0.
pub mod Code
use space_station.Prelude.{
  Bool, Bool-cases, List, Option, Option-cases, Result, String, [], ap, ap₂, arith, err, false,
  fun_ext, get_or, guard, if◌then◌else◌, inl, inr, leb, length, ltb, map, max, min, none, not, ok,
  or_throw, refl, replicate, some, subst, suc, sym, true, zero, ℕ, ◌%◌, ◌&&◌, ◌*◌, ◌++◌, ◌+◌, ◌-◌,
  ◌/◌, ◌<◌, ◌==◌, ◌>>=◌, ◌>>◌, ◌^◌, ◌||◌, ◌↔◌, ◌∙◌, ◌∷◌, ◌≡◌, ◌≢◌, ◌≤◌, ◌⊎◌,
}
use space_station.Authenticator.Base32.{
  Error, invalid_parameters, invalid_digest, decode_base32, hmac_failed, unsupported_algorithm,
}
use space_station.Prelude.Bytes.{Bytes, bytes_eq, text}

pub data Algorithm : Type 0 where
  sha1 sha256 sha512 : Algorithm

unfoldable pub digest_for_algorithm : Bytes → Result Error Algorithm
digest_for_algorithm algorithm =
    if bytes_eq algorithm (text "SHA1")
    then ok sha1
    else if bytes_eq algorithm (text "SHA256")
    then ok sha256
    else if bytes_eq algorithm (text "SHA512")
    then ok sha512
    else err unsupported_algorithm

-- The last `n` bytes of `message`: the loop fills it from its end.
unfoldable pub message_bytes : ℕ → ℕ → Bytes
message_bytes zero counter = []
message_bytes (suc n) counter = (counter / 2 ^ (n * 8)) % 256 ∷ message_bytes n counter

-- The four bytes of the digest at `offset`, without the first bit. Bytes that are shifted to different
-- places do not overlap, so `|` adds.
unfoldable pub truncated : Bytes → ℕ → ℕ
truncated digest offset =
    get_or digest offset 0 % 2 ^ 7 * 2 ^ 24
    + get_or digest (offset + 1) 0 * 2 ^ 16
    + get_or digest (offset + 2) 0 * 2 ^ 8
    + get_or digest (offset + 3) 0

-- `divisor *= 10U`, `digits` times, in 32 bits.
unfoldable pub divisor_loop : ℕ → ℕ → ℕ
divisor_loop zero divisor = divisor
divisor_loop (suc n) divisor = divisor_loop n ((divisor * 10) % 2 ^ 32)

-- What `<<` writes for a number of at most `k` digits.
unfoldable pub decimal : ℕ → ℕ → Bytes
decimal zero n = []
decimal (suc k) n =
    let higher = decimal k (n / 10) in
    if ltb n 10 then (b'0' + n) ∷ [] else higher ++ (b'0' + n % 10) ∷ []

-- std::setw(digits) with std::setfill('0'), for a std::uint32_t, which has at most 10 digits.
unfoldable pub padded : ℕ → ℕ → Bytes
padded digits n = let s = decimal 10 n in replicate (digits - length s) b'0' ++ s

module _ (hmac : Algorithm → Bytes → Bytes → Option Bytes) where
  -- From the digest to the code.
  unfoldable pub code_of_digest : Bytes → ℕ → Result Error Bytes
  code_of_digest digest digits = do
    let offset = get_or digest (length digest - 1) 0 % 16
    guard (not (leb (length digest) (offset + 3))) invalid_digest
    ok (padded digits (truncated digest offset % divisor_loop digits 1))

  unfoldable pub generate_totp : Bytes → ℕ → ℕ → ℕ → Bytes → Result Error Bytes
  generate_totp base32_secret unix_seconds period digits algorithm = do
    guard (not (ltb period 1 || (not (digits == 6) && not (digits == 8)))) invalid_parameters
    secret ← decode_base32 base32_secret
    chosen ← digest_for_algorithm algorithm
    digest ← or_throw (hmac chosen secret (message_bytes 8 (unix_seconds / period))) hmac_failed
    code_of_digest digest digits
