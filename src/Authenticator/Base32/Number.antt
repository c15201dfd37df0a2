-- ===== src/Authenticator/Base32/Number.antt =====
-- backend/src/authenticator/authenticator_service.cpp, DecodeBase32: the decoded bytes as a number.
use native.Mathlib.Nat.{mod-lt}
use space_station.Prelude.{
  >>=-eq-ok, All, All-append, Bool-cases, List, [], ap, arith, false, guard, guard-eq-ok, inl, inr,
  leb, leb→le, length, length-append, ltb, none, not, ok, or_throw, or_throw-some, refl, some,
  subst, suc, sym, true, zero, ℕ, ◌%◌, ◌*◌, ◌++◌, ◌+◌, ◌-◌, ◌/◌, ◌<◌, ◌^◌, ◌∙◌, ◌∷◌, ◌≡◌, ◌≤◌,
}
use space_station.Prelude.Bytes.{Bytes}
use space_station.Authenticator.Base32.{
  digit_value, to_upper, push_value, Decoder, decode_loop, is_skipped, decode_base32, empty_decoder,
  invalid_base32, secret_too_short,
}

-- Digits with the most significant first, after a number `n`.
abbrev pub number_after : ℕ → ℕ → List ℕ → ℕ
number_after base n [] = n
number_after base n (x ∷ xs) = number_after base (n * base + x) xs

number_after-append :
    (base n : ℕ) (xs : List ℕ) (x : ℕ)
    → number_after base n (xs ++ x ∷ []) ≡ number_after base n xs * base + x
number_after-append base n [] x = refl
number_after-append base n (y ∷ ys) x = number_after-append base (n * base + y) ys x

-- The values of the characters that have one; separators and padding have none.
unfoldable pub values : Bytes → List ℕ
values [] = []
values (raw ∷ rest) =
    let later = values rest in
    elim (digit_value (to_upper raw)) [ none ↦ later | some value ↦ value ∷ later ]

-- A byte more.
emits :
    (out acc b v : ℕ)
    → b < 8
    → v < 32
    → 8 ≤ b + 5
    → out * 2 ^ b * 32 + acc % 2 ^ b * 32 + v
      ≡ (out * 256 + (((acc * 2 ^ 5) % 2 ^ 32 + v) / 2 ^ (b + 5 - 8)) % 256) * 2 ^ (b + 5 - 8)
        + ((acc * 2 ^ 5) % 2 ^ 32 + v) % 2 ^ (b + 5 - 8)
emits out acc (suc (suc (suc zero))) v h hv h8 = omega arith
emits out acc (suc (suc (suc (suc zero)))) v h hv h8 = omega arith
emits out acc (suc (suc (suc (suc (suc zero))))) v h hv h8 = omega arith
emits out acc (suc (suc (suc (suc (suc (suc zero)))))) v h hv h8 = omega arith
emits out acc (suc (suc (suc (suc (suc (suc (suc zero))))))) v h hv h8 = omega arith
emits out acc zero v h hv h8 = absurd (omega arith)
emits out acc (suc zero) v h hv h8 = absurd (omega arith)
emits out acc (suc (suc zero)) v h hv h8 = absurd (omega arith)
emits out acc (suc (suc (suc (suc (suc (suc (suc (suc b)))))))) v h hv h8 = absurd (omega arith)

waits :
    (out acc b v : ℕ)
    → v < 32
    → b + 5 < 8
    → out * 2 ^ b * 32 + acc % 2 ^ b * 32 + v
      ≡ out * 2 ^ (b + 5) + ((acc * 2 ^ 5) % 2 ^ 32 + v) % 2 ^ (b + 5)
waits out acc zero v hv h8 = omega arith
waits out acc (suc zero) v hv h8 = omega arith
waits out acc (suc (suc zero)) v hv h8 = omega arith
waits out acc (suc (suc (suc b))) v hv h8 = absurd (omega arith)

-- The number that a decoder has read: its bytes, and the bits that wait for the next byte.
abbrev pub held : Decoder → ℕ
held d = number_after 256 0 d.output * 2 ^ d.bits + d.accumulator % 2 ^ d.bits

abbrev WellFormed : Decoder → Type 0
WellFormed d = (d.bits < 8) × All (λ x. x < 256) d.output

-- `e` is `d` after `n` more values.
abbrev Later : ℕ → Decoder → Decoder → Type 0
Later n d e = WellFormed e × (length e.output * 8 + e.bits ≡ length d.output * 8 + d.bits + n * 5)

byte_bound : (n : ℕ) → n % 256 < 256
byte_bound n = omega arith

leb→lt : (a b : ℕ) → leb a b ≡ false → b < a
leb→lt a b h = ground arith

push_value-held :
    (d : Decoder) (v : ℕ)
    → WellFormed d
    → v < 32
    → (held (push_value d v) ≡ held d * 32 + v) × Later 1 d (push_value d v)
unfolding push_value
push_value-held d v w h =
    let out = number_after 256 0 d.output in
    elim (Bool-cases (leb 8 (d.bits + 5))) [
      | inl full ↦
          let enough = leb→le 8 (d.bits + 5) full in
          rw full (
            rw (number_after-append 256 0 d.output)
                (omega (arith, emits out d.accumulator d.bits v w.0 h enough)),
            (
              (
                omega (arith, w.0, enough),
                All-append (λ x. x < 256) d.output _ w.1 (byte_bound _, tt),
              ),
              rw (length-append d.output) (omega (arith, w.0, enough)),
            ),
          )
      | inr room ↦
          let few = leb→lt 8 (d.bits + 5) room in
          rw room (omega (arith, waits out d.accumulator d.bits v h few), ((few, w.1), omega arith))
    ]

digit_value_bound : (c v : ℕ) → digit_value c ≡ some v → v < 32
unfolding digit_value
digit_value_bound c v h = ground arith

skipped_none : (raw : ℕ) → is_skipped raw ≡ true → digit_value (to_upper raw) ≡ none
unfolding is_skipped digit_value to_upper
skipped_none raw h = ground arith

values-empty : values [] ≡ []
unfolding values
values-empty = refl

values_skip :
    (raw : ℕ) (rest : Bytes) → digit_value (to_upper raw) ≡ none → values (raw ∷ rest) ≡ values rest
unfolding values
values_skip raw rest h = ground arith

values_more :
    (raw : ℕ) (rest : Bytes) (v : ℕ)
    → digit_value (to_upper raw) ≡ some v
    → values (raw ∷ rest) ≡ v ∷ values rest
unfolding values
values_more raw rest v h = ground arith

-- `e` is what reading `vs` makes of `d`.
abbrev Reads : List ℕ → Decoder → Decoder → Type 0
Reads vs d e = (held e ≡ number_after 32 (held d) vs) × Later (length vs) d e

decode_loop-Reads :
    (d e : Decoder) (input : Bytes)
    → WellFormed d
    → decode_loop d input ≡ ok e
    → Reads (values input) d e
unfolding decode_loop
decode_loop-Reads d e [] w h =
    let same : d ≡ e = ground arith in
    subst (λ vs. Reads vs d e) (sym values-empty)
      (subst (λ (x : Decoder). Reads [] d x) same (refl, (w, omega arith)))
decode_loop-Reads d e (raw ∷ rest) w h = elim (Bool-cases (is_skipped raw)) [
  | inl skip ↦
      subst (λ vs. Reads vs d e) (sym (values_skip raw rest (skipped_none raw skip)))
        (decode_loop-Reads d e rest w (rw skip at h))
  | inr plain ↦
      let (v, found, h') =
        >>=-eq-ok (or_throw (digit_value (to_upper raw)) invalid_base32)
          (λ value. decode_loop (push_value d value) rest) (rw plain at h) in
      let is_value = or_throw-some _ _ found in
      let (same, (fine, longer)) =
        push_value-held d v w (digit_value_bound (to_upper raw) v is_value) in
      let (same', (fine', longer')) = decode_loop-Reads (push_value d v) e rest fine h' in
      subst (λ vs. Reads vs d e) (sym (values_more raw rest v is_value))
        (
          same' ∙ ap (λ n. number_after 32 n (values rest)) same,
          (fine', omega (arith, longer, longer')),
        )
]

pow_pos : (b : ℕ) → 0 < 2 ^ b
pow_pos zero = omega arith
pow_pos (suc b) = omega (arith, pow_pos b)

-- A secret that is accepted is decoded as Base32 says: the bytes, with fewer than 8 bits that are
-- left over, are the number whose digits to base 32 are the values of the characters. The 32 bits of
-- the accumulator lose nothing, and there are at least 10 bytes.
pub decode_base32-number :
    (input out : Bytes)
    → decode_base32 input ≡ ok out
    → (bits : ℕ) × (left_over : ℕ) × (bits < 8)
      × (left_over < 2 ^ bits)
      × (length out * 8 + bits ≡ length (values input) * 5)
      × (number_after 256 0 out * 2 ^ bits + left_over ≡ number_after 32 0 (values input))
      × (10 ≤ length out)
      × All (λ x. x < 256) out
unfolding decode_base32
decode_base32-number input out h =
    let (d, looped, h₁) = >>=-eq-ok (decode_loop empty_decoder input) _ h in
    let (_, long, h₂) = >>=-eq-ok (guard (not (ltb (length d.output) 10)) secret_too_short) _ h₁ in
    let (same, (fine, longer)) = decode_loop-Reads empty_decoder d input (omega arith, tt) looped in
    let e : d.output ≡ out = cc h₂ in
    rw (← e) (
      d.bits,
      d.accumulator % 2 ^ d.bits,
      fine.0,
      mod-lt d.accumulator (pow_pos d.bits),
      omega (arith, longer),
      same,
      ground (arith, guard-eq-ok _ _ long),
      fine.1,
    )
