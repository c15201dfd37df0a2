-- ===== src/Telnet/Codec.antt =====
-- backend/src/telnet/telnet_session.cpp: the protocol's bytes, and what the session encodes.
use mathlib.Core.List.{reverse}
use space_station.Prelude.{
  ℕ, ◌+◌, ◌/◌, ◌%◌, Bool, true, false, ◌&&◌, ◌||◌, [], ◌∷◌, ◌++◌, map, leb, ◌==◌, if◌then◌else◌,
}
use space_station.Prelude.Bytes.{Bytes}
use space_station.Prelude.Int.{ℤ, clamp}

abbrev pub iac : ℕ
iac = 255

abbrev pub dont : ℕ
dont = 254

abbrev pub do_option : ℕ
do_option = 253

abbrev pub wont : ℕ
wont = 252

abbrev pub will : ℕ
will = 251

abbrev pub sb : ℕ
sb = 250

abbrev pub se : ℕ
se = 240

abbrev pub binary : ℕ
binary = 0

abbrev pub echo : ℕ
echo = 1

abbrev pub suppress_go_ahead : ℕ
suppress_go_ahead = 3

abbrev pub terminal_type : ℕ
terminal_type = 24

abbrev pub naws : ℕ
naws = 31

abbrev pub terminal_type_is : ℕ
terminal_type_is = 0

abbrev pub terminal_type_send : ℕ
terminal_type_send = 1

-- EscapeIac. The `if` of the loop body and the lambda `append` of WindowSize push one byte so.
unfoldable pub escape_byte : ℕ → Bytes
escape_byte value = if value == iac then value ∷ value ∷ [] else value ∷ []

unfoldable pub escape_iac : Bytes → Bytes
unfolding escape_byte
escape_iac [] = []
escape_iac (value ∷ input) = escape_byte value ++ escape_iac input

unfoldable pub negotiation : ℕ → ℕ → Bytes
negotiation action option = iac ∷ action ∷ option ∷ []

-- The four bytes of a window size, high byte first. `& 0xff` is `% 256`.
unfoldable pub size_bytes : ℕ → ℕ → Bytes
size_bytes columns rows =
    (columns / 256) % 256 ∷ columns % 256 ∷ (rows / 256) % 256 ∷ rows % 256 ∷ []

unfoldable pub window_size : ℤ → ℤ → Bytes
unfolding escape_iac size_bytes
window_size columns rows =
    iac
    ∷ sb
    ∷ naws
    ∷ (escape_iac (size_bytes (clamp columns 2 1000) (clamp rows 2 1000)) ++ iac ∷ se ∷ [])

-- std::tolower in the C locale.
unfoldable pub to_lower : ℕ → ℕ
to_lower c = if leb b'A' c && leb c b'Z' then c + 32 else c

unfoldable pub lower : Bytes → Bytes
unfolding to_lower
lower = map to_lower

-- std::isspace in the C locale: tab, line feed, vertical tab, form feed, return, space.
abbrev is_space : ℕ → Bool
is_space c = (leb 9 c && leb c 13) || c == 32

drop_spaces : Bytes → Bytes
drop_spaces [] = []
drop_spaces (c ∷ cs) = let rest = drop_spaces cs in if is_space c then rest else c ∷ cs

is_prefix : Bytes → Bytes → Bool
is_prefix [] ys = true
is_prefix (x ∷ xs) [] = false
is_prefix (x ∷ xs) (y ∷ ys) = (x == y) && is_prefix xs ys

-- EndsWithPrompt: the loop on `value.back()` and `ends_with` read the text from its end.
unfoldable pub ends_with_prompt : Bytes → Bytes → Bool
unfolding drop_spaces is_prefix
ends_with_prompt value prompt = is_prefix (reverse prompt) (drop_spaces (reverse value))
