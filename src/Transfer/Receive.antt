-- ===== src/Transfer/Receive.antt =====
-- backend/src/transfer/transfer.cpp, HandleFile: what the server receives after the plan, block by
-- block. zlib's `uncompress` and OpenSSL's SHA-256 are parameters.
pub mod Integrity
pub mod Complete
use space_station.Prelude.{
  Bool, Bool-cases, List, Option, Option-cases, Result, String, [], ap, ap₂, arith, err, false,
  fun_ext, get_or, guard, if◌then◌else◌, inl, inr, leb, length, ltb, map, max, min, none, not, ok,
  or_throw, refl, set, some, suc, sym, take, true, zero, ℕ, ◌%◌, ◌&&◌, ◌*◌, ◌++◌, ◌+◌, ◌-◌, ◌/◌,
  ◌<◌, ◌==◌, ◌>>=◌, ◌>>◌, ◌^◌, ◌||◌, ◌↔◌, ◌∙◌, ◌∷◌, ◌≡◌, ◌≢◌, ◌≤◌, ◌⊎◌,
}
use space_station.Transfer.Disk.{write_at}
use space_station.Transfer.Scan.{Progress, no_signature}
use space_station.Prelude.Bytes.{Bytes, bytes_eq, text}
use space_station.Transfer.Manifest.{
  Request, Error, max_chunk_body, decompression_failed, session_mismatch, invalid_chunk,
  connection_closed, hash_mismatch,
}

-- A "chunk" message, and the bytes that stand on the connection behind it.
pub record Chunk : Type 0 where
  pub kind : Bytes
  pub session_id : Bytes
  pub file_id : Bytes
  pub chunk_index : ℕ
  pub body_length : ℕ
  pub uncompressed_length : ℕ
  pub compression_algorithm : Bytes
  pub target_offset : ℕ
  pub strong_hash : Bytes
  pub wire : Bytes

pub record State : Type 0 where
  pub progress : Progress
  pub remaining : ℕ
  pub acknowledged : List ℕ

abbrev pub no_compression : Bytes
no_compression = text "none"

abbrev pub zlib : Bytes
zlib = text "zlib"

-- Connection::ReadAll, which throws when the connection ends before.
unfoldable pub read_all : Bytes → ℕ → Result Error Bytes
read_all wire n = if ltb (length wire) n then err connection_closed else ok (take n wire)

module _ (uncompress : Bytes → ℕ → Option Bytes) where
  -- DecompressZlib
  unfoldable pub decompress_zlib : Bytes → ℕ → Result Error Bytes
  decompress_zlib encoded expected_size = do
    guard (not (expected_size == 0)) decompression_failed
    output ← or_throw (uncompress encoded expected_size) decompression_failed
    guard (length output == expected_size) decompression_failed
    ok output

unfoldable pub matches_session : Request → Chunk → Bool
matches_session r c =
    bytes_eq c.kind (text "chunk")
    && bytes_eq c.session_id r.session_id
    && bytes_eq c.file_id r.file_id

unfoldable pub is_valid_chunk : Request → Progress → Chunk → Bool
is_valid_chunk r p c =
    let s = get_or r.signatures c.chunk_index no_signature in
    let plain = bytes_eq c.compression_algorithm no_compression in
    not (
      leb (length r.signatures) c.chunk_index
      || get_or p.matched c.chunk_index false
      || not (plain || bytes_eq c.compression_algorithm zlib)
      || not (
          if plain
          then c.body_length == c.uncompressed_length
          else ltb c.body_length c.uncompressed_length)
      || not (c.uncompressed_length == s.size)
      || not (c.target_offset == c.chunk_index * r.chunk_size)
      || c.body_length == 0
      || ltb max_chunk_body c.body_length
      || ltb max_chunk_body c.uncompressed_length
      || not (bytes_eq c.strong_hash s.strong))

-- The body of a chunk as it is stored: read from the connection, then decompressed if the chunk says
-- so.
unfoldable pub decode_body : (Bytes → ℕ → Option Bytes) → Chunk → Result Error Bytes
decode_body uncompress c = do
  encoded ← read_all c.wire c.body_length
  (if bytes_eq c.compression_algorithm zlib
      then decompress_zlib uncompress encoded c.uncompressed_length
      else ok encoded)

module _ (sha256 : Bytes → Bytes) (uncompress : Bytes → ℕ → Option Bytes) (r : Request) where
  -- `output.write`, `matched[index] = true`, `--remaining` and the "chunkAck" message.
  unfoldable pub store_block : State → ℕ → Bytes → State
  store_block st index body = record {
    progress = record {
      matched = set st.progress.matched index true;
      output = write_at st.progress.output (index * r.chunk_size) body;
      matched_bytes = st.progress.matched_bytes;
    };
    remaining = st.remaining - 1;
    acknowledged = st.acknowledged ++ index ∷ [];
  }

  unfoldable pub receive_chunk : State → Chunk → Result Error State
  receive_chunk st c = do
    guard (matches_session r c) session_mismatch
    guard (is_valid_chunk r st.progress c) invalid_chunk
    body ← decode_body uncompress c
    guard (bytes_eq (sha256 body) (get_or r.signatures c.chunk_index no_signature).strong)
        hash_mismatch
    ok (store_block st c.chunk_index body)

  -- `while (remaining > 0)`: the messages in the order of their arrival; their end is the end of the
  -- connection.
  unfoldable pub receive_all : State → List Chunk → Result Error State
  receive_all st [] = if st.remaining == 0 then ok st else err connection_closed
  receive_all st (c ∷ rest) =
      if st.remaining == 0 then ok st else receive_chunk st c >>= λ st'. receive_all st' rest
