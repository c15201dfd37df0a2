-- ===== src/Transfer/Tests/Sending.antt =====
-- backend/src/transfer/transfer.cpp: the client at work on a small upload.
use space_station.Prelude.{
  Bool-cases, List, Option, [], arith, false, get_or, if◌then◌else◌, inl, inr, length, none, ok,
  refl, replicate, some, subst, suc, sym, true, zero, ℕ, ◌*◌, ◌+◌, ◌<◌, ◌↔◌, ◌∙◌, ◌∷◌, ◌≡◌, ◌≤◌,
}
use space_station.Transfer.Client.Delivered.{upload_delivered}
use space_station.Transfer.Client.Announced.{start_file-accepted}
use space_station.Prelude.Int.{pos}
use space_station.Transfer.Client.Coding.{GivesBack}
use space_station.Transfer.Client.{
  announce, validate_client_config, send_chunks, start_file, ClientConfig, build_signatures,
  build_loop,
}
use space_station.Prelude.Bytes.{Bytes, text, bytes_eq, bytes_eq_sound}
use space_station.Transfer.Tests.{toy_hash, toy_uncompress, Verified, Inv}
use space_station.Transfer.Manifest.{
  safe_file_name, is_unsafe, is_safe_identifier, expected_chunks, max_chunk_count, Request,
}
use space_station.Transfer.Stream.{missing_from}
use space_station.Transfer.Receive.{State, Chunk, receive_all}
use mathlib.Core.Bool.{false≢true}

-- Compresses one word, by its last two bytes.
abbrev toy_compress : Bytes → Option Bytes
toy_compress xs = if bytes_eq xs (10 ∷ 20 ∷ 0 ∷ 0 ∷ []) then some (10 ∷ 20 ∷ []) else none

abbrev content : Bytes
content = 10 ∷ 20 ∷ 0 ∷ 0 ∷ 30 ∷ []

abbrev config : ClientConfig
config = record {
  host = text "127.0.0.1";
  port = pos 9443;
  tls_enabled = false;
  certificate_path = [];
  private_key_path = [];
  server_ca_path = [];
  chunk_size = 65536;
  compression_mode = text "chunk";
  files = text "/tmp/log.txt" ∷ [];
}

config_valid : validate_client_config config ≡ ok tt
unfolding validate_client_config bytes_eq
config_valid = refl

name_safe : safe_file_name (text "log.txt") ≡ ok (text "log.txt")
unfolding safe_file_name is_unsafe bytes_eq
name_safe = refl

session_safe : is_safe_identifier (text "session-1") ≡ true
unfolding is_safe_identifier
session_safe = refl

file_safe : is_safe_identifier (text "file-001") ≡ true
unfolding is_safe_identifier
file_safe = refl

few_blocks : expected_chunks 5 65536 ≤ max_chunk_count
unfolding expected_chunks
few_blocks = omega arith

-- A guess of the size of the JSON text.
abbrev dump_size : Request → ℕ
dump_size r = 200 + 120 * length r.signatures

start_file-accepted_example :
    (announce dump_size
        (start_file toy_hash 65536 (text "session-1") (text "file-001") (text "log.txt") content)
      ≡ ok tt)
    ↔ ((0
          < dump_size (
              start_file toy_hash 65536
                (text "session-1")
                (text "file-001")
                (text "log.txt")
                content))
        × (dump_size (
              start_file toy_hash 65536
                (text "session-1")
                (text "file-001")
                (text "log.txt")
                content)
            ≤ 64 * 1024 * 1024))
start_file-accepted_example =
    start_file-accepted dump_size toy_hash config (text "session-1") (text "file-001")
      (text "log.txt") content (λ xs. refl) config_valid name_safe session_safe file_safe
      (omega arith) few_blocks

-- The announcement of two blocks, of 4 bytes and of 1.
abbrev announced : Request
announced = start_file toy_hash 4 (text "session-1") (text "file-001") (text "log.txt") content

abbrev empty_plan : State
empty_plan = record {
  progress = record {
    matched = false ∷ false ∷ [];
    output = record { size = 5; at = λ _. 0 };
    matched_bytes = 0;
  };
  remaining = 2;
  acknowledged = [];
}

unmatched : (i : ℕ) → get_or (false ∷ false ∷ []) i false ≡ false
unmatched zero = refl
unmatched (suc zero) = refl
unmatched (suc (suc i)) = refl

empty_plan-Inv : Inv toy_hash announced empty_plan
unfolding start_file build_signatures build_loop
empty_plan-Inv = record {
  verified = record {
    same_length = refl;
    hashed = λ i e. absurd (false≢true (sym (unmatched i) ∙ e));
  };
  counted = refl;
}

toy-GivesBack : GivesBack toy_compress toy_uncompress
toy-GivesBack xs compressed h = elim (Bool-cases (bytes_eq xs (10 ∷ 20 ∷ 0 ∷ 0 ∷ []))) [
  | inl same ↦
      let e = bytes_eq_sound xs (10 ∷ 20 ∷ 0 ∷ 0 ∷ []) same in
      let k : ◌≡◌ {A = Option Bytes} (some (10 ∷ 20 ∷ [])) (some compressed) = rw same at h in
      let f : 10 ∷ 20 ∷ [] ≡ compressed = cc in
      subst (λ x. toy_uncompress x (length xs) ≡ some xs) f
        (subst (λ x. toy_uncompress (10 ∷ 20 ∷ []) (length x) ≡ some x) (sym e) refl)
  | inr other ↦ let k : ◌≡◌ {A = Option Bytes} none (some compressed) = rw other at h in absurd cc
]

upload_delivered_example :
    (cs : List Chunk) × (send_chunks toy_compress true announced content (0 ∷ 1 ∷ []) ≡ ok cs)
    × ((st' : State) × (receive_all toy_hash toy_uncompress announced empty_plan cs ≡ ok st')
        × (st'.acknowledged ≡ 0 ∷ 1 ∷ [])
        × Verified toy_hash (build_signatures toy_hash 4 content) 4 st'.progress
        × (st'.progress.matched ≡ replicate (length (build_signatures toy_hash 4 content)) true))
unfolding missing_from
upload_delivered_example =
    upload_delivered toy_hash toy_compress toy_uncompress true 4 (text "session-1")
      (text "file-001") (text "log.txt") content empty_plan toy-GivesBack (omega arith)
      (omega arith) empty_plan-Inv
