-- ===== src/Transfer/Manifest.antt =====
-- backend/src/transfer/transfer.cpp: the announcement of a file, and the tests that HandleFile makes
-- before it touches the disk. The JSON library's parsing is not modelled: a request is the record
-- of the fields that the code reads.
pub mod Bounds
use space_station.Prelude.{
  Bool, Bool-cases, List, Option, Option-cases, Result, String, [], all_of, ap, ap₂, arith, err,
  false, fun_ext, guard, if◌then◌else◌, inl, inr, leb, length, ltb, map, max, min, none, not, ok,
  refl, some, subst, suc, sym, true, zero, ℕ, ◌%◌, ◌&&◌, ◌*◌, ◌++◌, ◌+◌, ◌-◌, ◌/◌, ◌<◌, ◌==◌, ◌>>=◌,
  ◌>>◌, ◌^◌, ◌||◌, ◌↔◌, ◌∙◌, ◌∷◌, ◌≡◌, ◌≢◌, ◌≤◌, ◌⊎◌,
}
use space_station.Transfer.Scan.{Signature}
use space_station.Prelude.Bytes.{Bytes, is_alnum, bytes_eq, text}

pub data Error : Type 0 where
  unsafe_name invalid_manifest file_too_large too_many_chunks wrong_signature_count : Error
  invalid_signature session_mismatch invalid_chunk connection_closed decompression_failed : Error
  hash_mismatch missing_commit stream_too_long stream_overflow stream_mismatch : Error
  stream_frame_mismatch stream_incomplete invalid_stream_frame trailing_data inflate_failed : Error
  write_failed permissions_failed rename_failed frame_too_large invalid_frame_length : Error
  -- The fuel of a loop ran out: no error of the code.
  still_running : Error

abbrev pub max_json_frame : ℕ
max_json_frame = 64 * 1024 * 1024

-- SendJson and ReceiveJson, for a text of `size` bytes on a connection that lasts: their tests of its
-- size, which is sent ahead in 32 bits.
unfoldable pub send_json : ℕ → Result Error ℕ
send_json size = do guard (not (ltb max_json_frame size)) frame_too_large; ok (size % 2 ^ 32)

unfoldable pub receive_json : ℕ → Result Error (Unit {0})
receive_json size = do guard (not (size == 0 || ltb max_json_frame size)) invalid_frame_length

abbrev pub max_file_size : ℕ
max_file_size = 4 * 1024 * 1024 * 1024 * 1024

abbrev pub max_chunk_count : ℕ
max_chunk_count = 1_000_000

abbrev pub max_chunk_body : ℕ
max_chunk_body = 64 * 1024 * 1024

abbrev pub max_stream_frame_body : ℕ
max_stream_frame_body = 1024 * 1024

abbrev pub min_chunk_size : ℕ
min_chunk_size = 64 * 1024

abbrev pub max_chunk_size : ℕ
max_chunk_size = 16 * 1024 * 1024

-- The bytes that SafeFileName refuses.
unfoldable pub is_unsafe : ℕ → Bool
is_unsafe c = ltb c 0x20 || c == b'/' || c == b'\\' || c == b':'

unfoldable pub safe_file_name : Bytes → Result Error Bytes
safe_file_name input =
    if bytes_eq input []
      || bytes_eq input (text ".")
      || bytes_eq input (text "..")
      || not (all_of (λ c. not (is_unsafe c)) input)
    then err unsafe_name
    else ok input

abbrev pub is_identifier_byte : ℕ → Bool
is_identifier_byte c = is_alnum c || c == b'-' || c == b'_'

unfoldable pub is_safe_identifier : Bytes → Bool
is_safe_identifier value =
    leb 8 (length value) && leb (length value) 64 && all_of is_identifier_byte value

-- A "startFile" request.
pub record Request : Type 0 where
  pub session_id : Bytes
  pub file_id : Bytes
  pub name : Bytes
  pub file_size : ℕ
  pub chunk_size : ℕ
  pub full_hash : Bytes
  pub signatures_is_array : Bool
  pub signatures : List Signature

unfoldable pub expected_chunks : ℕ → ℕ → ℕ
expected_chunks file_size chunk_size =
    if file_size == 0 then 0 else (file_size - 1) / chunk_size + 1

unfoldable pub is_valid_signature : ℕ → Signature → Bool
is_valid_signature chunk_size s =
    not (not (length s.strong == 64) || s.size == 0 || ltb chunk_size s.size)

unfoldable pub check_manifest : Request → Result Error (Unit {0})
check_manifest r = do
  name ← safe_file_name r.name
  guard
      (not (
        not (is_safe_identifier r.session_id)
        || not (is_safe_identifier r.file_id)
        || ltb r.chunk_size min_chunk_size
        || ltb max_chunk_size r.chunk_size
        || not (length r.full_hash == 64)
        || not r.signatures_is_array))
      invalid_manifest
  guard (not (ltb max_file_size r.file_size)) file_too_large
  guard (not (ltb max_chunk_count (expected_chunks r.file_size r.chunk_size))) too_many_chunks
  guard (length r.signatures == expected_chunks r.file_size r.chunk_size) wrong_signature_count
  guard (all_of (is_valid_signature r.chunk_size) r.signatures) invalid_signature
