-- ===== src/Transfer/Stream.antt =====
-- backend/src/transfer/transfer.cpp, HandleFile: the branch for a continuous zlib stream. zlib's
-- `inflate`, with the state behind its z_stream, and OpenSSL's SHA-256 are parameters.
pub mod Frames
pub mod Blocks
pub mod Writing
pub mod Missing
pub mod Complete
pub mod Counting
pub mod Ends
use space_station.Prelude.{
  Bool, Bool-cases, List, Option, Option-cases, Result, String, [], ap, ap₂, arith, drop, err,
  false, fun_ext, get_or, guard, if◌then◌else◌, inl, inr, leb, length, ltb, map, max, min, none,
  not, ok, refl, set, some, subst, suc, sym, take, true, zero, ℕ, ◌%◌, ◌&&◌, ◌*◌, ◌++◌, ◌+◌, ◌-◌,
  ◌/◌, ◌<◌, ◌==◌, ◌>>=◌, ◌>>◌, ◌^◌, ◌||◌, ◌↔◌, ◌∙◌, ◌∷◌, ◌≡◌, ◌≢◌, ◌≤◌, ◌⊎◌,
}
use space_station.Transfer.Receive.{zlib}
use space_station.Transfer.Disk.{write_at}
use space_station.Prelude.Bytes.{Bytes, bytes_eq}
use space_station.Transfer.Scan.{Progress, no_signature}
use space_station.Transfer.Manifest.{
  Request, Error, hash_mismatch, still_running, max_file_size, stream_overflow, stream_too_long,
}

-- The "streamStart" message.
pub record StreamStart : Type 0 where
  pub session_id : Bytes
  pub file_id : Bytes
  pub compression_algorithm : Bytes
  pub uncompressed_length : ℕ

-- A message after it, and the bytes that stand on the connection behind it. A field that has two
-- defaults in the code is an Option.
pub record Frame : Type 0 where
  pub kind : Bytes
  pub session_id : Bytes
  pub file_id : Bytes
  pub sequence : Option ℕ
  pub body_length : ℕ
  pub wire_bytes : Option ℕ
  pub wire : Bytes

abbrev pub stream_buffer_size : ℕ
stream_buffer_size = 64 * 1024

-- What a call of inflate returns.
pub data Code : Type 0 where
  stream_end fine buffer_error other_error : Code

-- The result of a call: the input that is left, the output, and the inflater's new state.
pub record Inflated (Z : Type 0) : Type 0 where
  pub code : Code
  pub rest : Bytes
  pub produced : Bytes
  pub inflater : Z

-- The variables that `write_decoded` changes. `todo` is `missing_indices` from `missing_position` on;
-- `hashed` is what `block_hash` was given since its last reset.
pub record Writer : Type 0 where
  pub progress : Progress
  pub remaining : ℕ
  pub todo : List ℕ
  pub block_written : ℕ
  pub total_written : ℕ
  pub hashed : Bytes

-- The loop that builds `missing` and `missing_indices`.
unfoldable pub missing_from : ℕ → List Bool → List ℕ
missing_from index [] = []
missing_from index (m ∷ ms) =
    let rest = missing_from (index + 1) ms in if m then rest else index ∷ rest

-- The sum of the lengths of the missing blocks, with the test for an overflow before each addition.
unfoldable pub expected_length : Request → List ℕ → ℕ → Result Error ℕ
expected_length r [] sum = ok sum
expected_length r (index ∷ rest) sum =
    let size = (get_or r.signatures index no_signature).size in
    if ltb (max_file_size - size) sum
    then err stream_overflow
    else expected_length r rest (sum + size)

unfoldable pub matches_start : Request → StreamStart → ℕ → Bool
matches_start r s expected =
    bytes_eq s.session_id r.session_id
    && bytes_eq s.file_id r.file_id
    && bytes_eq s.compression_algorithm zlib
    && s.uncompressed_length == expected

module _ (sha256 : Bytes → Bytes) (r : Request) where
  -- `matched[index] = true` and what follows: the writer turns to the next block.
  unfoldable pub next_block : Writer → ℕ → List ℕ → Writer
  next_block w index rest = record w {
    progress = record w.progress { matched = set w.progress.matched index true };
    remaining = w.remaining - 1;
    todo = rest;
    block_written = 0;
    hashed = elim rest [ [] ↦ w.hashed | j ∷ js ↦ [] ];
  }

  -- The end of one turn of `write_decoded`, when the current block is full.
  unfoldable pub finish_block : Writer → ℕ → List ℕ → Result Error Writer
  finish_block w index rest = do
    guard (bytes_eq (sha256 w.hashed) (get_or r.signatures index no_signature).strong) hash_mismatch
    ok (next_block w index rest)

  -- The bytes that a turn writes into the block `index`.
  unfoldable pub write_part : Writer → ℕ → Bytes → Writer
  write_part w index part = record w {
    progress = record w.progress {
      output = write_at w.progress.output (index * r.chunk_size + w.block_written) part;
    };
    block_written = w.block_written + length part;
    total_written = w.total_written + length part;
    hashed = w.hashed ++ part;
  }

  unfoldable pub write_turn : Writer → ℕ → List ℕ → Bytes → Result Error Writer
  write_turn w index rest part =
      let w' = write_part w index part in
      if w'.block_written == (get_or r.signatures index no_signature).size
      then finish_block w' index rest
      else ok w'

  -- `while (size > 0)`. Each turn takes at least one byte, so `fuel` is the number of bytes.
  unfoldable pub write_loop : ℕ → Writer → Bytes → Result Error Writer
  write_loop fuel w [] = ok w
  write_loop zero w (x ∷ xs) = err still_running
  write_loop (suc fuel) w (x ∷ xs) = elim w.todo [
    | [] ↦ err stream_too_long
    | index ∷ rest ↦
        let room = (get_or r.signatures index no_signature).size - w.block_written in
        let count = min (length (x ∷ xs)) room in
        write_turn w index rest (take count (x ∷ xs)) >>= λ w'.
        write_loop fuel w' (drop count (x ∷ xs))
  ]

  unfoldable pub write_decoded : Writer → Bytes → Result Error Writer
  write_decoded w decoded = write_loop (length decoded) w decoded
