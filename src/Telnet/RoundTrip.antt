-- ===== src/Telnet/RoundTrip.antt =====
-- backend/src/telnet/telnet_session.cpp: what EscapeIac and WindowSize write, the parser reads back.
use mathlib.Core.List.{append-nil, append_assoc}
use space_station.Prelude.{
  ℕ, ◌+◌, ◌*◌, ◌≤◌, ◌≡◌, refl, sym, ◌∙◌, [], ◌∷◌, ◌++◌, arith, ◌==◌, Option, none, some,
  if◌then◌else◌,
}
use space_station.Prelude.Bytes.{Bytes}
use space_station.Prelude.Int.{ℤ, clamp, clamp_bounds}
use space_station.Telnet.Codec.{iac, se, naws, escape_byte, escape_iac, size_bytes, window_size}
use space_station.Telnet.Parser.{Parser, in_data, in_sub, step_in, step, parse, asks_terminal_type}

-- A window size as the peer reads it (RFC 1073): the option, then two numbers, high byte first.
abbrev pub read_size : Bytes → Option (ℕ × ℕ)
read_size (option ∷ a ∷ b ∷ c ∷ d ∷ []) =
    if option == naws then some (a * 256 + b, c * 256 + d) else none
read_size _ = none

read_size-size_bytes :
    (c r : ℕ) → c ≤ 1000 → r ≤ 1000 → read_size (naws ∷ size_bytes c r) ≡ some (c, r)
unfolding size_bytes
read_size-size_bytes c r hc hr = ground arith

module _ (columns rows : ℤ) where
  pub parse-append :
      (p : Parser) (xs ys : Bytes)
      → parse columns rows p (xs ++ ys) ≡ parse columns rows (parse columns rows p xs) ys
  unfolding parse
  parse-append p [] ys = refl
  parse-append p (x ∷ xs) ys = parse-append (step columns rows p x) xs ys

  escape_byte-data :
      (p : Parser) (x : ℕ)
      → parse columns rows (record p { parse_state = in_data }) (escape_byte x)
        ≡ record p { parse_state = in_data; output = p.output ++ x ∷ [] }
  unfolding parse step_in escape_byte
  escape_byte-data p x = ground arith

  escape_byte-sub :
      (p : Parser) (x : ℕ)
      → parse columns rows (record p { parse_state = in_sub }) (escape_byte x)
        ≡ record p { parse_state = in_sub; subnegotiation = p.subnegotiation ++ x ∷ [] }
  unfolding parse step_in escape_byte
  escape_byte-sub p x = ground arith

  escape_iac-data :
      (p : Parser) (xs : Bytes)
      → parse columns rows (record p { parse_state = in_data }) (escape_iac xs)
        ≡ record p { parse_state = in_data; output = p.output ++ xs }
  unfolding escape_iac parse
  escape_iac-data p [] = rw append-nil
  escape_iac-data p (x ∷ xs) =
      rw
        (
          parse-append _ (escape_byte x) (escape_iac xs),
          escape_byte-data p x,
          escape_iac-data (record p { output = p.output ++ x ∷ [] }) xs,
          append_assoc,
        )
        refl

  escape_iac-sub :
      (p : Parser) (xs : Bytes)
      → parse columns rows (record p { parse_state = in_sub }) (escape_iac xs)
        ≡ record p { parse_state = in_sub; subnegotiation = p.subnegotiation ++ xs }
  unfolding escape_iac parse
  escape_iac-sub p [] = rw append-nil
  escape_iac-sub p (x ∷ xs) =
      rw
        (
          parse-append _ (escape_byte x) (escape_iac xs),
          escape_byte-sub p x,
          escape_iac-sub (record p { subnegotiation = p.subnegotiation ++ x ∷ [] }) xs,
          append_assoc,
        )
        refl

  -- For a parser between commands, any byte string that was escaped by EscapeIac is appended to the
  -- output as it was; nothing is answered, and the parser is between commands again.
  pub parse-escape_iac :
      (p : Parser) (xs : Bytes)
      → p.parse_state ≡ in_data
      → parse columns rows p (escape_iac xs) ≡ record p { output = p.output ++ xs }
  parse-escape_iac p xs h =
      (λ i. parse columns rows (record p { parse_state = h i }) (escape_iac xs))
      ∙ escape_iac-data p xs
      ∙ (λ i. record p { parse_state = sym h i; output = p.output ++ xs })

  window_size_frame :
      (p : Parser) (c r : ℕ)
      → parse columns rows
          (record p { parse_state = in_sub; subnegotiation = naws ∷ [] })
          (escape_iac (size_bytes c r) ++ iac ∷ se ∷ [])
        ≡ record p { parse_state = in_data; subnegotiation = naws ∷ size_bytes c r }
  unfolding parse step_in asks_terminal_type size_bytes
  window_size_frame p c r =
      rw
        (
          parse-append _ (escape_iac (size_bytes c r)) (iac ∷ se ∷ []),
          escape_iac-sub (record p { subnegotiation = naws ∷ [] }) (size_bytes c r),
        )
        refl

  window_size-data :
      (p : Parser) (c r : ℤ)
      → parse columns rows (record p { parse_state = in_data }) (window_size c r) ≡ record p {
        parse_state = in_data;
        subnegotiation = naws ∷ size_bytes (clamp c 2 1000) (clamp r 2 1000);
      }
  unfolding window_size parse step_in
  window_size-data p c r = window_size_frame p (clamp c 2 1000) (clamp r 2 1000)

  -- A window size frame puts nothing into the output and is answered by nothing, whatever the
  -- numbers: it leaves a parser between commands there, with a subnegotiation that reads as the
  -- clamped columns and rows.
  pub parse-window_size :
      (p : Parser) (c r : ℤ)
      → p.parse_state ≡ in_data
      → (size : Bytes) × (parse columns rows p (window_size c r)
          ≡ record p { subnegotiation = size })
        × (read_size size ≡ some (clamp c 2 1000, clamp r 2 1000))
  parse-window_size p c r h = (
    naws ∷ size_bytes (clamp c 2 1000) (clamp r 2 1000),
    (λ i. parse columns rows (record p { parse_state = h i }) (window_size c r))
        ∙ window_size-data p c r
        ∙ (λ i. record p {
          parse_state = sym h i;
          subnegotiation = naws ∷ size_bytes (clamp c 2 1000) (clamp r 2 1000);
        }),
    read_size-size_bytes _ _ (clamp_bounds c 2 1000 (omega arith)).1
        (clamp_bounds r 2 1000 (omega arith)).1,
  )
