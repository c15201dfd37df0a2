-- ===== src/Authenticator/Entries/Saved.antt =====
-- backend/src/authenticator/authenticator_service.cpp: what SaveEntry leaves in the vault.
use space_station.Authenticator.Totp.Code.{generate_totp-MadeOf}
use space_station.Prelude.{
  >>=-eq-ok, All, Bool-cases, Option, Result, Result-cases, [], ap, arith, err, guard-eq-ok,
  if◌then◌else◌, inl, inr, length, map, none, not, ok, ok-injective, refl, some, subst, sym, true,
  ℕ, ◌%◌, ◌&&◌, ◌-◌, ◌<◌, ◌||◌, ◌∙◌, ◌≡◌, ◌≢◌, ◌≤◌, ◌⊎◌,
}
use mathlib.Core.Bool.{false≢true}
use space_station.Prelude.Int.{
  ℤ, is_int, int_below, int_above, clamp, pos, clamp_bounds, clamp_within, negsuc,
}
use space_station.Authenticator.Totp.Code.{IsDigit, generate_totp-MadeOf}
use space_station.Authenticator.Base32.{
  Error, to_upper, normalize_secret, empty_name, invalid_digits, invalid_period, empty_secret,
}
use space_station.Prelude.Dict.{Dict, insert, lookup, lookup-insert}
use space_station.Prelude.Bytes.{Bytes, bytes_eq_refl, bytes_eq_sound}
use space_station.Authenticator.Totp.{Algorithm, generate_totp}
use space_station.Authenticator.Entries.{
  save_authenticator_entry, Public, Entry, checked_entry, save_entry, public_entry, stored_secret,
  bytes_eq, stored_entry, guard, answered_entry, digest_for_algorithm,
}
use native.Mathlib.Nat.{mod-lt}

left_over : (now period : ℕ) → 15 ≤ period → 1 ≤ period - now % period
left_over now period h = omega (arith, mod-lt now {m = period} (omega arith))

ok_injective : {a b : Public} {r : Result Error Public} → r ≡ ok b → ok a ≡ r → a ≡ b
ok_injective h k = cc

module _ (hmac : Algorithm → Bytes → Bytes → Option Bytes)
    (bytes : (a : Algorithm) (k m d : Bytes) → hmac a k m ≡ some d → All (λ x. x < 256) d) where
  -- For an HMAC that answers with bytes: whatever an entry holds, what is shown of it has a period of
  -- 15 to 120 seconds, a code of 6 or 8 decimal digits, as many as it says, and a time that remains
  -- of 1 second up to the period.
  pub public_entry-bounds :
      (entry : Entry) (now : ℕ) (p : Public)
      → public_entry hmac entry now ≡ ok p
      → (15 ≤ p.period)
        × (p.period ≤ 120)
        × ((p.digits ≡ 6) ⊎ (p.digits ≡ 8))
        × (length p.code ≡ p.digits)
        × All IsDigit p.code
        × (1 ≤ p.remaining)
        × (p.remaining ≤ p.period)
  unfolding public_entry
  public_entry-bounds entry now p h =
      let period = clamp entry.period 15 120 in
      let digits : ℕ = if is_int entry.digits 8 then 8 else 6 in
      let (low, high) = clamp_bounds entry.period 15 120 (omega arith) in
      let (code, made, h₁) =
        >>=-eq-ok (generate_totp hmac entry.secret now period digits entry.algorithm) _ h in
      let (size, known, fine, _) =
        generate_totp-MadeOf hmac entry.secret now period digits entry.algorithm code bytes made in
      subst
        (λ (q : Public).
          (15 ≤ q.period)
          × (q.period ≤ 120)
          × ((q.digits ≡ 6) ⊎ (q.digits ≡ 8))
          × (length q.code ≡ q.digits)
          × All IsDigit q.code
          × (1 ≤ q.remaining)
          × (q.remaining ≤ q.period))
        (ok_injective h₁ refl) (low, high, known, size, fine, left_over now period low, omega arith)

save_authenticator_entry-ok :
    (vault vault' : Dict Entry) (entry : Entry)
    → save_authenticator_entry vault entry ≡ ok vault'
    → insert entry.id entry vault ≡ vault'
unfolding save_authenticator_entry
save_authenticator_entry-ok vault vault' entry h = ground arith

known_digits :
    (z : ℤ)
    → not (not (is_int z 6) && not (is_int z 8)) ≡ true
    → (d : ℕ) × (z ≡ pos d) × ((d ≡ 6) ⊎ (d ≡ 8))
known_digits (pos n) h = (n, refl, ground arith)
known_digits (negsuc n) h = absurd cc

known_period :
    (z : ℤ)
    → not (int_below z 15 || int_above z 120) ≡ true
    → (n : ℕ) × (z ≡ pos n) × (15 ≤ n) × (n ≤ 120)
known_period (pos n) h = (n, refl, ground arith, ground arith)
known_period (negsuc n) h = absurd cc

-- Where the secret of a saved entry comes from: the input, or, if that is empty, the vault.
abbrev pub SecretFrom : Dict Entry → Entry → Bytes → Type 0
SecretFrom vault input secret =
    (input.secret ≢ [] → normalize_secret input.secret ≡ ok secret)
    × (input.secret ≡ []
        → (old : Entry) × (lookup input.id vault ≡ some old)
          × (normalize_secret old.secret ≡ ok secret))

secret_found :
    (vault : Dict Entry) (id secret : Bytes)
    → stored_secret vault id ≢ []
    → normalize_secret (stored_secret vault id) ≡ ok secret
    → (old : Entry) × (lookup id vault ≡ some old) × (normalize_secret old.secret ≡ ok secret)
unfolding stored_secret
secret_found vault id secret n h = go (lookup id vault) refl
  where
    go :
        (o : Option Entry)
        → lookup id vault ≡ o
        → (old : Entry) × (lookup id vault ≡ some old) × (normalize_secret old.secret ≡ ok secret)
    go none e = absurd (n (rw (e, stored_secret) refl))
    go (some old) e = (old, e, rw (e, stored_secret) at h)

secret_of :
    (vault : Dict Entry) (input : Entry) (secret : Bytes)
    → not (
        bytes_eq
          (if bytes_eq input.secret [] then stored_secret vault input.id else input.secret)
          [])
      ≡ true
    → normalize_secret
        (if bytes_eq input.secret [] then stored_secret vault input.id else input.secret)
      ≡ ok secret
    → SecretFrom vault input secret
secret_of vault input secret n h = elim (Bool-cases (bytes_eq input.secret [])) [
  | inl blank ↦ (
    (λ x. absurd (x (bytes_eq_sound input.secret [] blank))),
    (λ x.
        secret_found vault input.id secret
          (λ e. nonempty (stored_secret vault input.id) (rw blank at n) e) (rw blank at h)),
  )
  | inr given ↦ (
    (λ x. rw given at h),
    (λ x. absurd (false≢true (sym given ∙ ap (λ y. bytes_eq y []) x ∙ bytes_eq_refl []))),
  )
]
  where
    nonempty : (xs : Bytes) → not (bytes_eq xs []) ≡ true → xs ≢ []
    nonempty xs k e =
        let b : bytes_eq xs [] ≡ true = ap (λ y. bytes_eq y []) e ∙ bytes_eq_refl [] in ground arith

module _ (hmac : Algorithm → Bytes → Bytes → Option Bytes) where
  -- What the tests of SaveEntry leave of the input.
  checked :
      (vault : Dict Entry) (input : Entry) (made : Bytes × Bytes)
      → checked_entry hmac vault input ≡ ok made
      → ((d : ℕ) × (input.digits ≡ pos d) × ((d ≡ 6) ⊎ (d ≡ 8)))
        × ((n : ℕ) × (input.period ≡ pos n) × (15 ≤ n) × (n ≤ 120))
        × SecretFrom vault input made.0
        × (made.1 ≡ map to_upper input.algorithm)
  unfolding checked_entry
  checked vault input made h =
      let (_, _, h₁) =
        >>=-eq-ok (guard (not (bytes_eq input.id [] || bytes_eq input.name [])) empty_name) _ h in
      let (_, digits, h₂) =
        >>=-eq-ok
          (guard (not (not (is_int input.digits 6) && not (is_int input.digits 8))) invalid_digits)
          _ h₁ in
      let (_, period, h₃) =
        >>=-eq-ok
          (guard (not (int_below input.period 15 || int_above input.period 120)) invalid_period) _
          h₂ in
      let (_, _, h₄) = >>=-eq-ok (digest_for_algorithm (map to_upper input.algorithm)) _ h₃ in
      let from = if bytes_eq input.secret [] then stored_secret vault input.id else input.secret in
      let (_, some_secret, h₅) = >>=-eq-ok (guard (not (bytes_eq from [])) empty_secret) _ h₄ in
      let (secret, normal, h₆) = >>=-eq-ok (normalize_secret from) _ h₅ in
      let e : ◌≡◌ {A = Bytes × Bytes} (secret, map to_upper input.algorithm) made =
        ok-injective h₆ in
      (
        known_digits input.digits (guard-eq-ok _ _ digits),
        known_period input.period (guard-eq-ok _ _ period),
        secret_of vault input made.0 (guard-eq-ok _ _ some_secret)
            (normal ∙ ap (λ (x : Bytes × Bytes). ok x.0) e),
        sym (ap (λ (x : Bytes × Bytes). x.1) e),
      )

  shown :
      (entry : Entry) (now : ℕ) (p : Public)
      → public_entry hmac entry now ≡ ok p
      → ((if is_int entry.digits 8 then 8 else 6) ≡ p.digits)
        × (clamp entry.period 15 120 ≡ p.period)
  unfolding public_entry
  shown entry now p h =
      let period = clamp entry.period 15 120 in
      let digits : ℕ = if is_int entry.digits 8 then 8 else 6 in
      let (code, made, h₁) =
        >>=-eq-ok (generate_totp hmac entry.secret now period digits entry.algorithm) _ h in
      (
        ap (λ (q : Public). q.digits) (ok_injective h₁ refl),
        ap (λ (q : Public). q.period) (ok_injective h₁ refl),
      )

  stored :
      (vault : Dict Entry) (entry : Entry) (id : Bytes)
      → (lookup entry.id (insert entry.id entry vault) ≡ some entry)
        × (id ≢ entry.id → lookup id (insert entry.id entry vault) ≡ lookup id vault)
  stored vault entry id = (
    ground (arith, lookup-insert entry.id entry.id entry vault, bytes_eq_refl entry.id),
    (λ n. ground (arith, lookup-insert entry.id id entry vault, bytes_eq_sound entry.id id)),
  )

  saved_as :
      (vault vault' : Dict Entry) (input : Entry) (now : ℕ) (p : Public)
      → save_entry hmac vault input now ≡ (vault', ok p)
      → (made : Bytes × Bytes) × (checked_entry hmac vault input ≡ ok made)
        × (insert input.id (stored_entry hmac input made) vault ≡ vault')
        × (public_entry hmac (answered_entry hmac input made) now ≡ ok p)
  unfolding save_entry stored_entry
  saved_as vault vault' input now p h = elim (Result-cases (checked_entry hmac vault input)) [
    | inl (e, c) ↦
        let k : ◌≡◌ {A = Dict Entry × Result Error Public} (vault, err e) (vault', ok p) =
          rw (c, save_entry) at h in
        let r : ◌≡◌ {A = Result Error Public} (err e) (ok p) = ap (λ x. x.1) k in absurd cc
    | inr (made, c) ↦ go made c (save_authenticator_entry vault (stored_entry hmac input made)) refl
  ]
    where
      go :
          (made : Bytes × Bytes)
          → checked_entry hmac vault input ≡ ok made
          → (m : Result Error (Dict Entry))
          → save_authenticator_entry vault (stored_entry hmac input made) ≡ m
          → (made : Bytes × Bytes) × (checked_entry hmac vault input ≡ ok made)
            × (insert input.id (stored_entry hmac input made) vault ≡ vault')
            × (public_entry hmac (answered_entry hmac input made) now ≡ ok p)
      go made c (err e) f =
          let k : ◌≡◌ {A = Dict Entry × Result Error Public} (vault, err e) (vault', ok p) =
            rw (c, save_entry, f) at h in
          let r : ◌≡◌ {A = Result Error Public} (err e) (ok p) = ap (λ x. x.1) k in absurd cc
      go made c (ok v) f =
          let k : ◌≡◌ {A = Dict Entry × Result Error Public}
              (v, public_entry hmac (answered_entry hmac input made) now) (vault', ok p) =
            rw (c, save_entry, f) at h in
          (
            made,
            c,
            save_authenticator_entry-ok vault v (stored_entry hmac input made) f ∙ ap (λ x. x.0) k,
            ap (λ x. x.1) k,
          )

  -- What a save leaves: the entry under the input's id, which is the input with its algorithm in
  -- capitals and its secret in base 32, and the other entries as they were.
  pub record SavedAs (vault vault' : Dict Entry) (input : Entry) (now : ℕ) (p : Public)
      (entry : Entry) : Type 0 where
    pub found : lookup input.id vault' ≡ some entry
    pub same_id : entry.id ≡ input.id
    pub same_name : entry.name ≡ input.name
    pub same_issuer : entry.issuer ≡ input.issuer
    pub same_account : entry.account ≡ input.account
    pub same_digits : entry.digits ≡ input.digits
    pub same_period : entry.period ≡ input.period
    pub capitals : entry.algorithm ≡ map to_upper input.algorithm
    pub from : SecretFrom vault input entry.secret
    pub answer : public_entry hmac entry now ≡ ok p
    pub answer_digits : pos p.digits ≡ input.digits
    pub answer_period : pos p.period ≡ input.period
    pub others : (id : Bytes) → id ≢ input.id → lookup id vault' ≡ lookup id vault

  -- A save that is answered with a code: under its id the vault has the entry with the name, the issuer,
  -- the account, the digits and the period of the input, with the algorithm in capitals, and with the
  -- normalized secret of the input, or of the entry that was there if the input has none. Every other
  -- entry is as before, and the answer is what a listing shows of the stored entry at that time, with
  -- the digits and the period that were asked for.
  pub save_entry-saved :
      (vault vault' : Dict Entry) (input : Entry) (now : ℕ) (p : Public)
      → save_entry hmac vault input now ≡ (vault', ok p)
      → (entry : Entry) × SavedAs vault vault' input now p entry
  unfolding stored_entry answered_entry
  save_entry-saved vault vault' input now p h =
      let (made, passed, inserted, answered) = saved_as vault vault' input now p h in
      let ((d, is_d, known), (n, is_n, low, high), from, capitals) =
        checked vault input made passed in
      let entry = stored_entry hmac input made in
      let (digits, period) = shown entry now p answered in
      (
        entry,
        record {
          found = subst (λ v. lookup input.id v ≡ some entry) inserted (stored vault entry []).0;
          same_id = refl;
          same_name = refl;
          same_issuer = refl;
          same_account = refl;
          same_digits = refl;
          same_period = refl;
          capitals = capitals;
          from = from;
          answer = answered;
          answer_digits = ap pos (sym digits) ∙ same_size input.digits d is_d known;
          answer_period =
              ap pos (sym period ∙ ap (λ z. clamp z 15 120) is_n ∙ clamp_within n 15 120 low high)
              ∙ sym is_n;
          others = λ id x.
              subst (λ v. lookup id v ≡ lookup id vault) inserted ((stored vault entry id).1 x);
        },
      )
    where
      same_size :
          (z : ℤ) (d : ℕ) → z ≡ pos d → (d ≡ 6) ⊎ (d ≡ 8) → pos (if is_int z 8 then 8 else 6) ≡ z
      same_size z d e (inl six) = rw (e, six) refl
      same_size z d e (inr eight) = rw (e, eight) refl
