-- ===== src/Authenticator/Totp/Code.antt =====
-- backend/src/authenticator/authenticator_service.cpp, GenerateTotp: what a code is.
use native.Mathlib.Numerals.{unary_clauses}
use native.Mathlib.Nat.{mod-lt}
use space_station.Prelude.{
  >>=-eq-ok, All, All-append, Bool-cases, Option, [], arith, drop, get_or, guard, guard-eq-ok, inl,
  inr, leb, length, length-append, length-replicate, ltb, ltb→le, ltb→lt, map, not, ok, or_throw,
  or_throw-some, refl, replicate, some, suc, take, true, zero, ℕ, ◌%◌, ◌&&◌, ◌*◌, ◌++◌, ◌+◌, ◌-◌,
  ◌/◌, ◌<◌, ◌==◌, ◌^◌, ◌||◌, ◌∙◌, ◌∷◌, ◌≡◌, ◌≤◌, ◌⊎◌,
}
use space_station.Authenticator.Base32.{
  decode_base32, invalid_parameters, hmac_failed, invalid_digest,
}
use space_station.Authenticator.Base32.Number.{number_after}
use space_station.Authenticator.Totp.{
  decimal, padded, divisor_loop, truncated, Algorithm, generate_totp, code_of_digest,
  digest_for_algorithm, message_bytes,
}
use space_station.Prelude.Bytes.{Bytes}

-- The number that a decimal text writes.
abbrev pub read_decimal : Bytes → ℕ
read_decimal xs = number_after 10 0 (map (λ c. c - b'0') xs)

abbrev pub IsDigit : ℕ → Type 0
IsDigit c = (b'0' ≤ c) × (c ≤ b'9')

-- A text of the digits of `n`, none missing.
abbrev Writes : ℕ → Bytes → Type 0
Writes n xs = (read_decimal xs ≡ n) × All IsDigit xs

read_decimal-append :
    (xs : Bytes) (x : ℕ) → read_decimal (xs ++ x ∷ []) ≡ read_decimal xs * 10 + (x - b'0')
read_decimal-append xs x = go 0 xs
  where
    go :
        (n : ℕ) (ys : Bytes)
        → number_after 10 n (map (λ c. c - b'0') (ys ++ x ∷ []))
          ≡ number_after 10 n (map (λ c. c - b'0') ys) * 10 + (x - b'0')
    go n [] = refl
    go n (y ∷ ys) = go (n * 10 + (y - b'0')) ys

pos_of_large : (k n : ℕ) → n < 10 ^ suc k → 10 ≤ n → 0 < k
pos_of_large zero n h l = absurd (omega arith)
pos_of_large (suc k) n h l = omega arith

decimal-Writes : (k n : ℕ) → n < 10 ^ k → 0 < k → Writes n (decimal k n)
unfolding decimal
decimal-Writes zero n h p = absurd (omega arith)
decimal-Writes (suc k) n h p = elim (Bool-cases (ltb n 10)) [
  | inl small ↦
      let low = ltb→lt n 10 small in rw small (omega arith, ((omega arith, omega arith), tt))
  | inr large ↦
      let high = ltb→le n 10 large in
      let (reads, fine) = decimal-Writes k (n / 10) (omega (arith, h)) (pos_of_large k n h high) in
      rw large (
        rw (read_decimal-append (decimal k (n / 10)) (b'0' + n % 10), reads) (omega arith),
        All-append IsDigit (decimal k (n / 10)) _ fine ((omega arith, omega arith), tt),
      )
]

length-decimal : (k d n : ℕ) → n < 10 ^ suc d → length (decimal k n) ≤ suc d
unfolding decimal
length-decimal zero d n h = omega arith
length-decimal (suc k) zero n h = ground arith
length-decimal (suc k) (suc d) n h =
    let shorter = length-decimal k d (n / 10) (omega (arith, h)) in
    elim (Bool-cases (ltb n 10)) [
      | inl small ↦ rw small (omega arith)
      | inr large ↦
          rw large
            (omega (arith, shorter, length-append (decimal k (n / 10)) ((b'0' + n % 10) ∷ [])))
    ]

pad_reads : (j : ℕ) (xs : Bytes) → read_decimal (replicate j b'0' ++ xs) ≡ read_decimal xs
pad_reads zero xs = refl
pad_reads (suc j) xs = pad_reads j xs

pad-IsDigit : (j : ℕ) (xs : Bytes) → All IsDigit xs → All IsDigit (replicate j b'0' ++ xs)
pad-IsDigit zero xs h = h
pad-IsDigit (suc j) xs h = ((omega arith, omega arith), pad-IsDigit j xs h)

-- Dynamic truncation as RFC 4226 has it: four bytes of the digest, read as a number without its first
-- bit.
unfoldable pub truncation : Bytes → ℕ
truncation digest =
    number_after 256 0 (take 4 (drop (get_or digest (length digest - 1) 0 % 16) digest)) % 2 ^ 31

truncated-number :
    (digest : Bytes) (offset : ℕ)
    → offset + 3 < length digest
    → All (λ x. x < 256) digest
    → truncated digest offset ≡ number_after 256 0 (take 4 (drop offset digest)) % 2 ^ 31
unfolding truncated
truncated-number [] offset h w = absurd (omega arith)
truncated-number (a ∷ []) zero h w = absurd (omega arith)
truncated-number (a ∷ b ∷ []) zero h w = absurd (omega arith)
truncated-number (a ∷ b ∷ c ∷ []) zero h w = absurd (omega arith)
truncated-number (a ∷ b ∷ c ∷ d ∷ rest) zero h w = omega (arith, w.0, w.1.0, w.1.1.0, w.1.1.1.0)
truncated-number (x ∷ rest) (suc offset) h w =
    simp unary_clauses (simp unary_clauses at (truncated-number rest offset (omega arith) w.1))

divisor_of : (digits : ℕ) → (digits ≡ 6) ⊎ (digits ≡ 8) → divisor_loop digits 1 ≡ 10 ^ digits
unfolding divisor_loop
divisor_of digits (inl e) = rw e refl
divisor_of digits (inr e) = rw e refl

fits_ten : (digits n : ℕ) → (digits ≡ 6) ⊎ (digits ≡ 8) → n < 10 ^ digits → n < 10 ^ 10
fits_ten digits n (inl e) h = omega (arith, rw e at h)
fits_ten digits n (inr e) h = omega (arith, rw e at h)

decimal-short :
    (digits n : ℕ) → (digits ≡ 6) ⊎ (digits ≡ 8) → n < 10 ^ digits → length (decimal 10 n) ≤ digits
decimal-short digits n (inl e) h = rw e (length-decimal 10 5 n (rw e at h))
decimal-short digits n (inr e) h = rw e (length-decimal 10 7 n (rw e at h))

-- A code has the asked number of digits and writes the number, if it has room for it.
padded-Writes :
    (digits n : ℕ)
    → (digits ≡ 6) ⊎ (digits ≡ 8)
    → n < 10 ^ digits
    → (length (padded digits n) ≡ digits) × Writes n (padded digits n)
unfolding padded
padded-Writes digits n d h =
    let small : n < 10 ^ 10 = fits_ten digits n d h in
    let (reads, fine) = decimal-Writes 10 n small (omega arith) in
    let short : length (decimal 10 n) ≤ digits = decimal-short digits n d h in
    (
      omega (
        arith,
        short,
        length-append (replicate (digits - length (decimal 10 n)) b'0') (decimal 10 n),
        length-replicate {A = ℕ} (digits - length (decimal 10 n)) b'0',
      ),
      (
        pad_reads (digits - length (decimal 10 n)) (decimal 10 n) ∙ reads,
        pad-IsDigit (digits - length (decimal 10 n)) (decimal 10 n) fine,
      ),
    )

ten_pos : (n : ℕ) → 0 < 10 ^ n
ten_pos zero = omega arith
ten_pos (suc n) = omega (arith, ten_pos n)

six_or_eight :
    (period digits : ℕ)
    → not (ltb period 1 || (not (digits == 6) && not (digits == 8))) ≡ true
    → (digits ≡ 6) ⊎ (digits ≡ 8)
six_or_eight period digits h = ground arith

code_bound : (digits n : ℕ) → (digits ≡ 6) ⊎ (digits ≡ 8) → n % divisor_loop digits 1 < 10 ^ digits
code_bound digits n d = rw (divisor_of digits d) (mod-lt n (ten_pos digits))

inside_of : (a b : ℕ) → not (leb a b) ≡ true → b < a
inside_of a b h = ground arith

value_of :
    (digest : Bytes) (digits : ℕ)
    → (digits ≡ 6) ⊎ (digits ≡ 8)
    → All (λ x. x < 256) digest
    → get_or digest (length digest - 1) 0 % 16 + 3 < length digest
    → truncated digest (get_or digest (length digest - 1) 0 % 16) % divisor_loop digits 1
      ≡ truncation digest % 10 ^ digits
unfolding truncation
value_of digest digits d w h =
    rw (truncated-number digest (get_or digest (length digest - 1) 0 % 16) h w, divisor_of digits d)
      refl

-- The message is the counter as eight bytes, the most significant first.
big_endian :
    (counter : ℕ)
    → (length (message_bytes 8 counter) ≡ 8)
      × All (λ x. x < 256) (message_bytes 8 counter)
      × (number_after 256 0 (message_bytes 8 counter) ≡ counter % 2 ^ 64)
unfolding message_bytes
big_endian counter = (refl, ground arith, omega arith)

module _ (hmac : Algorithm → Bytes → Bytes → Option Bytes) where
  -- What a code was made of.
  pub record MadeOf (base32_secret : Bytes) (counter digits : ℕ) (algorithm code : Bytes)
      : Type 0 where
    pub key : Bytes
    pub chosen : Algorithm
    pub digest : Bytes
    pub decoded : decode_base32 base32_secret ≡ ok key
    pub supported : digest_for_algorithm algorithm ≡ ok chosen
    pub message : Bytes
    pub computed : hmac chosen key message ≡ some digest
    pub message_size : length message ≡ 8
    pub message_octets : All (λ x. x < 256) message
    pub message_counts : number_after 256 0 message ≡ counter % 2 ^ 64
    pub reads : read_decimal code ≡ truncation digest % 10 ^ digits

  -- For an HMAC that answers with bytes: a code that GenerateTotp returns has as many decimal digits
  -- as asked, 6 or 8, leading zeros included, and is the number that RFC 4226 takes out of the HMAC
  -- of the time step, as eight bytes with the most significant first, under the decoded key.
  pub generate_totp-MadeOf :
      (base32_secret : Bytes) (unix_seconds period digits : ℕ) (algorithm code : Bytes)
      → ((a : Algorithm) (k m d : Bytes) → hmac a k m ≡ some d → All (λ x. x < 256) d)
      → generate_totp hmac base32_secret unix_seconds period digits algorithm ≡ ok code
      → (length code ≡ digits)
        × ((digits ≡ 6) ⊎ (digits ≡ 8))
        × All IsDigit code
        × MadeOf base32_secret (unix_seconds / period) digits algorithm code
  unfolding generate_totp code_of_digest
  generate_totp-MadeOf base32_secret unix_seconds period digits algorithm code bytes h =
      let (_, valid, h₁) =
        >>=-eq-ok
          (guard (not (ltb period 1 || (not (digits == 6) && not (digits == 8))))
            invalid_parameters)
          _ h in
      let (key, decoded, h₂) = >>=-eq-ok (decode_base32 base32_secret) _ h₁ in
      let (chosen, supported, h₃) = >>=-eq-ok (digest_for_algorithm algorithm) _ h₂ in
      let (digest, computed, h₄) =
        >>=-eq-ok (or_throw (hmac chosen key (message_bytes 8 (unix_seconds / period))) hmac_failed)
          _ h₃ in
      let offset = get_or digest (length digest - 1) 0 % 16 in
      let (_, inside, h₅) =
        >>=-eq-ok (guard (not (leb (length digest) (offset + 3))) invalid_digest) _ h₄ in
      let some_digest = or_throw-some _ _ computed in
      let d : (digits ≡ 6) ⊎ (digits ≡ 8) = six_or_eight period digits (guard-eq-ok _ _ valid) in
      let value : truncated digest offset % divisor_loop digits 1
          ≡ truncation digest % 10 ^ digits =
        value_of digest digits d (bytes chosen key _ digest some_digest)
          (inside_of _ _ (guard-eq-ok _ _ inside)) in
      let (size, (reads, fine)) =
        padded-Writes digits (truncated digest offset % divisor_loop digits 1) d
          (code_bound digits (truncated digest offset) d) in
      let e : padded digits (truncated digest offset % divisor_loop digits 1) ≡ code = cc h₅ in
      rw (← e) (
        size,
        d,
        fine,
        record {
          key = key;
          chosen = chosen;
          digest = digest;
          decoded = decoded;
          supported = supported;
          message = message_bytes 8 (unix_seconds / period);
          computed = some_digest;
          message_size = (big_endian (unix_seconds / period)).0;
          message_octets = (big_endian (unix_seconds / period)).1;
          message_counts = (big_endian (unix_seconds / period)).2;
          reads = reads ∙ value;
        },
      )
