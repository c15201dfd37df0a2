-- ===== src/Transfer/Client.antt =====
-- backend/src/transfer/transfer.cpp: Client::Send, from the file to the messages of its missing blocks.
-- zlib's compress2 and OpenSSL's SHA-256 are parameters.
pub mod Announced
pub mod Coding
pub mod Delivered
use space_station.Prelude.{
  Bool, Bool-cases, List, Option, Option-cases, Result, String, [], ap, ap₂, arith, drop, false,
  fun_ext, get_or, guard, if◌then◌else◌, inl, inr, leb, length, ltb, map, max, min, none, not, ok,
  refl, some, subst, suc, sym, take, true, zero, ℕ, ◌%◌, ◌&&◌, ◌*◌, ◌++◌, ◌+◌, ◌-◌, ◌/◌, ◌<◌, ◌==◌,
  ◌>>=◌, ◌>>◌, ◌^◌, ◌||◌, ◌↔◌, ◌∙◌, ◌∷◌, ◌≡◌, ◌≢◌, ◌≤◌, ◌⊎◌,
}
use space_station.Transfer.Receive.{no_compression, Chunk, zlib}
use space_station.Transfer.Checksum.{weak_checksum}
use space_station.Transfer.Manifest.{
  Error, Request, check_manifest, max_file_size, receive_json, send_json,
}
use space_station.Transfer.Scan.{Signature, no_signature}
use space_station.Prelude.Int.{ℤ, pos, negsuc}
use space_station.Prelude.Bytes.{Bytes, bytes_eq, text}

-- What the client throws.
pub data ClientError : Type 0 where
  invalid_target invalid_chunk_size invalid_compression_mode no_credentials no_files : ClientError
  invalid_missing_index invalid_missing_order missing_overflow cannot_read_block : ClientError

pub record ClientConfig : Type 0 where
  pub host : Bytes
  pub port : ℤ
  pub tls_enabled : Bool
  pub certificate_path : Bytes
  pub private_key_path : Bytes
  pub server_ca_path : Bytes
  pub chunk_size : ℕ
  pub compression_mode : Bytes
  pub files : List Bytes

abbrev pub is_port : ℤ → Bool
is_port (pos n) = not (ltb n 1 || ltb 65535 n)
is_port (negsuc n) = not true

-- ValidateClientConfig
unfoldable pub validate_client_config : ClientConfig → Result ClientError (Unit {0})
validate_client_config c = do
  guard (not (bytes_eq c.host [] || not (is_port c.port))) invalid_target
  guard (not (ltb c.chunk_size (64 * 1024) || ltb (16 * 1024 * 1024) c.chunk_size))
      invalid_chunk_size
  guard (bytes_eq c.compression_mode (text "chunk") || bytes_eq c.compression_mode (text "stream"))
      invalid_compression_mode
  guard
      (not (
        c.tls_enabled
        && (bytes_eq c.certificate_path []
            || bytes_eq c.private_key_path []
            || bytes_eq c.server_ca_path [])))
      no_credentials
  guard (not (length c.files == 0)) no_files

-- The loop over the plan's `missing`, with the last index and the bytes so far.
unfoldable pub check_missing : List Signature → Option ℕ → ℕ → List ℕ → Result ClientError ℕ
check_missing signatures last missing_bytes [] = ok missing_bytes
check_missing signatures last missing_bytes (index ∷ rest) = do
  guard (not (leb (length signatures) index)) invalid_missing_index
  guard (not (elim last [ none ↦ not true | some before ↦ leb index before ])) invalid_missing_order
  guard (not (ltb (max_file_size - (get_or signatures index no_signature).size) missing_bytes))
      missing_overflow
  check_missing signatures (some index)
      (missing_bytes + (get_or signatures index no_signature).size) rest

module _ (sha256 : Bytes → Bytes) where
  abbrev pub signature_of : Bytes → Signature
  signature_of block = record {
    weak = weak_checksum block;
    strong = sha256 block;
    size = length block;
  }

  -- `while (input)`. Each turn but the last takes at least one byte.
  unfoldable pub build_loop : ℕ → ℕ → Bytes → List Signature
  build_loop zero chunk_size content = []
  build_loop (suc fuel) chunk_size content =
      let rest = build_loop fuel chunk_size (drop chunk_size content) in
      if length (take chunk_size content) == 0
      then []
      else signature_of (take chunk_size content) ∷ rest

  -- BuildSignatures
  unfoldable pub build_signatures : ℕ → Bytes → List Signature
  build_signatures chunk_size content = build_loop (length content) chunk_size content

  -- The "startFile" message.
  unfoldable pub start_file : ℕ → Bytes → Bytes → Bytes → Bytes → Request
  start_file chunk_size session_id file_id name content = record {
    session_id = session_id;
    file_id = file_id;
    name = name;
    file_size = length content;
    chunk_size = chunk_size;
    full_hash = sha256 content;
    signatures_is_array = true;
    signatures = build_signatures chunk_size content;
  }

-- The announcement on its way: SendJson of the client, then ReceiveJson and the tests of the server.
-- `dump_size` is the size of the JSON text of a request.
unfoldable pub announce : (Request → ℕ) → Request → Result Error (Unit {0})
announce dump_size r = do size ← send_json (dump_size r); receive_json size; check_manifest r

-- What of compress2's result is used; an empty result stands for none.
unfoldable pub shorter : Bytes → Option Bytes → Bytes
shorter content none = []
shorter content (some compressed) =
    if leb (length content) (length compressed) then [] else compressed

-- The algorithm and the body of a block.
unfoldable pub chosen : Bytes → Bytes → Bytes × Bytes
chosen buffer compressed =
    if bytes_eq compressed [] then (no_compression, buffer) else (zlib, compressed)

module _ (compress : Bytes → Option Bytes) where
  -- TryCompressZlib
  unfoldable pub try_compress_zlib : Bytes → Bytes
  try_compress_zlib content = if length content == 0 then [] else shorter content (compress content)

  unfoldable pub encode_block : Bool → Bytes → Bytes × Bytes
  encode_block supports_zlib buffer =
      chosen buffer (if supports_zlib then try_compress_zlib buffer else [])

  -- One turn of the loop over the missing blocks, up to the message.
  unfoldable pub send_chunk : Bool → Request → Bytes → ℕ → Result ClientError Chunk
  send_chunk supports_zlib r content index = do
    let s = get_or r.signatures index no_signature
    let buffer = take s.size (drop (index * r.chunk_size) content)
    guard (length buffer == s.size) cannot_read_block
    ok (record {
      kind = text "chunk";
      session_id = r.session_id;
      file_id = r.file_id;
      chunk_index = index;
      body_length = length (encode_block supports_zlib buffer).1;
      uncompressed_length = s.size;
      compression_algorithm = (encode_block supports_zlib buffer).0;
      target_offset = index * r.chunk_size;
      strong_hash = s.strong;
      wire = (encode_block supports_zlib buffer).1;
    })

  -- The messages for the missing blocks.
  unfoldable pub send_chunks : Bool → Request → Bytes → List ℕ → Result ClientError (List Chunk)
  send_chunks supports_zlib r content [] = ok []
  send_chunks supports_zlib r content (index ∷ rest) = do
    c ← send_chunk supports_zlib r content index
    cs ← send_chunks supports_zlib r content rest
    ok (c ∷ cs)
