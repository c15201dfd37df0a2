-- ===== src/Authenticator/Tests.antt =====
-- backend/src/authenticator/authenticator_service.cpp: the theorems at concrete inputs. The HMAC is a toy:
-- twenty bytes with the last one of the message, whatever the key.
use space_station.Prelude.{
  All, Option, [], arith, get_or, length, ok, refl, replicate, some, subst, ℕ, ◌%◌, ◌*◌, ◌++◌, ◌+◌,
  ◌/◌, ◌<◌, ◌^◌, ◌∷◌, ◌≡◌, ◌≤◌, ◌⊎◌,
}
use space_station.Authenticator.Entries.Saved.{public_entry-bounds, save_entry-saved, SavedAs}
use space_station.Authenticator.Totp.Code.{IsDigit, MadeOf, generate_totp-MadeOf}
use space_station.Authenticator.Base32.Number.{values, number_after, decode_base32-number}
use space_station.Prelude.Int.{clamp, pos}
use space_station.Authenticator.Base32.{
  decode_base32, decode_loop, push_value, is_skipped, normalize_secret, digit_value, to_upper,
  normalized,
}
use space_station.Prelude.Dict.{Dict, lookup, insert, erase}
use space_station.Prelude.Bytes.{Bytes, text, bytes_eq}
use space_station.Authenticator.Entries.{
  Entry, Public, save_entry, stored_entry, answered_entry, public_entry, checked_entry,
  stored_secret, save_authenticator_entry,
}
use space_station.Authenticator.Totp.{
  generate_totp, Algorithm, code_of_digest, padded, decimal, truncated, divisor_loop,
  digest_for_algorithm, message_bytes,
}

abbrev toy_hmac : Algorithm → Bytes → Bytes → Option Bytes
toy_hmac a k m = some (replicate 16 0 ++ 1 ∷ 2 ∷ (get_or m 7 0 % 256) ∷ 15 ∷ [])

toy_hmac-bytes : (a : Algorithm) (k m d : Bytes) → toy_hmac a k m ≡ some d → All (λ x. x < 256) d
toy_hmac-bytes a k m d h =
    let e : replicate 16 0 ++ 1 ∷ 2 ∷ (get_or m 7 0 % 256) ∷ 15 ∷ [] ≡ d = cc in
    subst (λ (x : Bytes). All (λ b. b < 256) x) e (ground arith)

abbrev secret : Bytes
secret = text "GEZD GNBV-GY3T QOJQ"

abbrev key_bytes : Bytes
key_bytes = text "1234567890"

decode_base32-computed : decode_base32 secret ≡ ok key_bytes
unfolding decode_base32 decode_loop push_value is_skipped digit_value to_upper
decode_base32-computed = refl

decode_base32-number_example :
    (bits : ℕ) × (left_over : ℕ) × (bits < 8)
    × (left_over < 2 ^ bits)
    × (length key_bytes * 8 + bits ≡ length (values secret) * 5)
    × (number_after 256 0 key_bytes * 2 ^ bits + left_over ≡ number_after 32 0 (values secret))
    × (10 ≤ length key_bytes)
    × All (λ x. x < 256) key_bytes
decode_base32-number_example = decode_base32-number secret key_bytes decode_base32-computed

abbrev code_digits : ℕ
code_digits = 6

abbrev code : Bytes
code = text "066049"

generate_totp-computed : generate_totp toy_hmac secret 59 30 6 (text "SHA1") ≡ ok code
unfolding generate_totp code_of_digest padded decimal truncated divisor_loop digest_for_algorithm
    bytes_eq decode_base32 decode_loop push_value is_skipped digit_value to_upper message_bytes
generate_totp-computed = refl

generate_totp-MadeOf_example :
    (length code ≡ code_digits)
    × ((code_digits ≡ 6) ⊎ (code_digits ≡ 8))
    × All IsDigit code
    × MadeOf toy_hmac secret (59 / 30) 6 (text "SHA1") code
generate_totp-MadeOf_example =
    generate_totp-MadeOf toy_hmac secret 59 30 6 (text "SHA1") code toy_hmac-bytes
      generate_totp-computed

abbrev entry : Entry
entry = record {
  id = text "mail";
  name = text "Mail";
  issuer = [];
  account = text "me";
  secret = text "GEZDGNBVGY3TQOJQ";
  algorithm = text "SHA1";
  digits = pos 6;
  period = pos 30;
}

abbrev shown : Public
shown = record {
  id = text "mail";
  name = text "Mail";
  issuer = [];
  account = text "me";
  algorithm = text "SHA1";
  digits = 6;
  period = 30;
  code = code;
  remaining = 1;
}

public_entry-computed : public_entry toy_hmac entry 59 ≡ ok shown
unfolding public_entry clamp generate_totp code_of_digest padded decimal truncated divisor_loop
    digest_for_algorithm bytes_eq decode_base32 decode_loop push_value is_skipped digit_value
    to_upper message_bytes
public_entry-computed = refl

public_entry-bounds_example :
    (15 ≤ shown.period)
    × (shown.period ≤ 120)
    × ((shown.digits ≡ 6) ⊎ (shown.digits ≡ 8))
    × (length shown.code ≡ shown.digits)
    × All IsDigit shown.code
    × (1 ≤ shown.remaining)
    × (shown.remaining ≤ shown.period)
public_entry-bounds_example =
    public_entry-bounds toy_hmac toy_hmac-bytes entry 59 shown public_entry-computed

-- A new name for an entry; the secret is left blank, so the stored one stays.
abbrev vault : Dict Entry
vault = (text "mail", record entry { name = text "Post" }) ∷ []

abbrev input : Entry
input = record entry { secret = []; algorithm = text "sha1" }

save_entry-computed :
    save_entry toy_hmac vault input 59 ≡ (insert (text "mail") entry vault, ok shown)
unfolding save_entry stored_entry answered_entry checked_entry stored_secret lookup insert erase
    normalize_secret normalized save_authenticator_entry public_entry clamp generate_totp
    code_of_digest padded decimal truncated divisor_loop digest_for_algorithm bytes_eq decode_base32
    decode_loop push_value is_skipped digit_value to_upper message_bytes
save_entry-computed = refl

save_entry-saved_example :
    (stored : Entry) × SavedAs toy_hmac vault
      (insert (text "mail") entry vault)
      input
      59
      shown
      stored
save_entry-saved_example =
    save_entry-saved toy_hmac vault (insert (text "mail") entry vault) input 59 shown
      save_entry-computed
