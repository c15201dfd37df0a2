-- ===== src/Authenticator/Entries.antt =====
-- backend/src/authenticator/authenticator_service.cpp: PublicEntry, ListCodes, SaveEntry and
-- DeleteEntry. backend/src/config/config_store.cpp: LoadAuthenticatorEntries, SaveAuthenticatorEntry and
-- DeleteAuthenticatorEntry, as a map from an entry's id to the entry: what is encrypted with AES is
-- decrypted to the same. A missing field of a JSON object has the default that the code names.
pub mod Saved
use space_station.Prelude.{
  Bool, Bool-cases, List, Option, Option-cases, Result, String, [], ap, ap₂, arith, err, false,
  fun_ext, guard, if◌then◌else◌, inl, inr, leb, ltb, map, max, min, none, not, ok, refl, some,
  subst, suc, sym, true, zero, ℕ, ◌%◌, ◌&&◌, ◌*◌, ◌++◌, ◌+◌, ◌-◌, ◌/◌, ◌<◌, ◌==◌, ◌>>=◌, ◌>>◌, ◌^◌,
  ◌||◌, ◌↔◌, ◌∙◌, ◌∷◌, ◌≡◌, ◌≢◌, ◌≤◌, ◌⊎◌,
}
use space_station.Prelude.Int.{ℤ, clamp, is_int, int_below, int_above}
use space_station.Authenticator.Base32.{
  Error, incomplete_entry, empty_id, empty_name, to_upper, invalid_digits, invalid_period,
  empty_secret, normalize_secret,
}
use space_station.Prelude.Bytes.{Bytes, bytes_eq}
use space_station.Authenticator.Totp.{Algorithm, generate_totp, digest_for_algorithm}
use space_station.Prelude.Dict.{Dict, lookup, erase, insert}

pub record Entry : Type 0 where
  pub id : Bytes
  pub name : Bytes
  pub issuer : Bytes
  pub account : Bytes
  pub secret : Bytes
  pub algorithm : Bytes
  pub digits : ℤ
  pub period : ℤ

-- What a client gets to see.
pub record Public : Type 0 where
  pub id : Bytes
  pub name : Bytes
  pub issuer : Bytes
  pub account : Bytes
  pub algorithm : Bytes
  pub digits : ℕ
  pub period : ℕ
  pub code : Bytes
  pub remaining : ℕ

-- The lock of the store and the tests of SaveAuthenticatorEntry.
unfoldable pub save_authenticator_entry : Dict Entry → Entry → Result Error (Dict Entry)
save_authenticator_entry vault entry = do
  guard (not (bytes_eq entry.id [] || bytes_eq entry.name [] || bytes_eq entry.secret []))
      incomplete_entry
  ok (insert entry.id entry vault)

-- The first entry with the id, in LoadAuthenticatorEntries, which gives each its key as its id.
unfoldable pub stored_secret : Dict Entry → Bytes → Bytes
stored_secret vault id = elim (lookup id vault) [ none ↦ [] | some entry ↦ entry.secret ]

module _ (hmac : Algorithm → Bytes → Bytes → Option Bytes) where
  unfoldable pub public_entry : Entry → ℕ → Result Error Public
  public_entry entry now = do
    let period = clamp entry.period 15 120
    let digits = if is_int entry.digits 8 then 8 else 6
    code ← generate_totp hmac entry.secret now period digits entry.algorithm
    ok (record {
      id = entry.id;
      name = entry.name;
      issuer = entry.issuer;
      account = entry.account;
      algorithm = entry.algorithm;
      digits = digits;
      period = period;
      code = code;
      remaining = period - now % period;
    })

  -- The loop of ListCodes, before the entries are sorted by their labels.
  unfoldable pub list_codes : Dict Entry → ℕ → Result Error (List Public)
  list_codes [] now = ok []
  list_codes ((id, entry) ∷ rest) now = do
    shown ← public_entry (record entry { id = id }) now
    later ← list_codes rest now
    ok (shown ∷ later)

  -- The tests of SaveEntry, and the secret and the algorithm that they leave.
  unfoldable pub checked_entry : Dict Entry → Entry → Result Error (Bytes × Bytes)
  checked_entry vault input = do
    guard (not (bytes_eq input.id [] || bytes_eq input.name [])) empty_name
    let algorithm = map to_upper input.algorithm
    guard (not (not (is_int input.digits 6) && not (is_int input.digits 8))) invalid_digits
    guard (not (int_below input.period 15 || int_above input.period 120)) invalid_period
    chosen ← digest_for_algorithm algorithm
    let secret_input =
        if bytes_eq input.secret [] then stored_secret vault input.id else input.secret
    guard (not (bytes_eq secret_input [])) empty_secret
    secret ← normalize_secret secret_input
    ok (secret, algorithm)

  -- The object that is given to the store.
  unfoldable pub stored_entry : Entry → Bytes × Bytes → Entry
  stored_entry input made = record {
    id = input.id;
    name = input.name;
    issuer = input.issuer;
    account = input.account;
    secret = made.0;
    algorithm = made.1;
    digits = input.digits;
    period = input.period;
  }

  -- `saved`, the input with four fields overwritten.
  unfoldable pub answered_entry : Entry → Bytes × Bytes → Entry
  answered_entry input made = record input {
    secret = made.0;
    algorithm = made.1;
    digits = input.digits;
    period = input.period;
  }

  -- The answer is computed after the entry was stored.
  unfoldable pub save_entry : Dict Entry → Entry → ℕ → Dict Entry × Result Error Public
  unfolding stored_entry answered_entry
  save_entry vault input now = elim (checked_entry vault input) [
    | err e ↦ (vault, err e)
    | ok made ↦ elim (save_authenticator_entry vault (stored_entry input made)) [
      | err e ↦ (vault, err e)
      | ok vault' ↦ (vault', public_entry (answered_entry input made) now)
    ]
  ]

unfoldable pub delete_entry : Dict Entry → Bytes → Dict Entry × Result Error (Unit {0})
delete_entry vault id = if bytes_eq id [] then (vault, err empty_id) else (erase id vault, ok tt)
