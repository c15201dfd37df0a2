-- ===== src/Transfer/HandleFile/Content.antt =====
-- backend/src/transfer/transfer.cpp: what a committed upload of the client leaves at the destination.
use space_station.Transfer.HandleFile.Safety.{commits, keeps, AfterCommit}
use space_station.Prelude.{
  Bool, Bool-cases, Option, inl, inr, length, none, replicate, some, sym, true, ℕ, ◌∙◌, ◌≡◌, ◌≢◌,
  ◌⊎◌,
}
use mathlib.Core.Bool.{false≢true}
use space_station.Transfer.HandleFile.Safety.{handle_file-Ends}
use space_station.Transfer.HandleFile.{Disk, Reply, Upload, File, handle_file, committed, contents}
use space_station.Transfer.Stream.{Inflated}
use space_station.Transfer.Receive.Integrity.{Verified}
use space_station.Transfer.Client.{start_file, build_signatures}
use space_station.Prelude.Bytes.{Bytes, bytes_eq, bytes_eq_sound, bytes_eq_iff}

-- What an upload promises: the destination holds the client's file, or what it held before; otherwise the
-- destination holds another file, which has the same hash as a whole and in each block.
pub data Delivers (sha256 : Bytes → Bytes) (chunk_size : ℕ) (content : Bytes) (d d' : Disk)
    (reply : Reply) : Type 0 where
  delivered :
      (f : File)
      → AfterCommit reply
      → d'.destination ≡ some f
      → contents f ≡ content
      → d'.temporary ≡ none
      → Delivers sha256 chunk_size content d d' reply
  refused :
      reply ≢ committed
      → d'.destination ≡ d.destination
      → (d' ≡ d) ⊎ (d'.temporary ≡ none)
      → Delivers sha256 chunk_size content d d' reply
  collides :
      (f : File)
      → d'.destination ≡ some f
      → contents f ≢ content
      → sha256 (contents f) ≡ sha256 content
      → Verified sha256 (build_signatures sha256 chunk_size content) chunk_size (record {
        matched = replicate (length (build_signatures sha256 chunk_size content)) true;
        output = f;
        matched_bytes = 0;
      })
      → Delivers sha256 chunk_size content d d' reply

-- For a file that a client announces, whatever blocks the server found elsewhere and whatever
-- messages came, an upload either puts just that file in place, leaves no temporary file, and
-- answers with a commit or fails to write that answer; or it does not answer with a commit, leaves
-- the destination as it was, and has changed nothing or leaves no temporary file. The exception is
-- another file in its place that has the same hash as a whole and in each block.
pub handle_file-Delivers :
    (sha256 : Bytes → Bytes) (uncompress : Bytes → ℕ → Option Bytes) {Z : Type 0}
    (inflate : Z → Bytes → Inflated Z) (fresh_inflater : Z) (overwrite : Bool) (few : ℕ → Bool)
    (chunk_size : ℕ) (session_id file_id name content : Bytes) (u : Upload) (d : Disk)
    → Delivers sha256 chunk_size content d
        (handle_file sha256 uncompress inflate fresh_inflater overwrite few
          (start_file sha256 chunk_size session_id file_id name content)
          u
          d).0
        (handle_file sha256 uncompress inflate fresh_inflater overwrite few
          (start_file sha256 chunk_size session_id file_id name content)
          u
          d).1
unfolding start_file
handle_file-Delivers sha256 uncompress inflate fresh_inflater overwrite few chunk_size session_id
      file_id name content u d =
    elim (handle_file-Ends sha256 uncompress inflate fresh_inflater overwrite few
      (start_file sha256 chunk_size session_id file_id name content) u d) [
        | commits f e may at_destination cleaned hash verified ↦
            elim (Bool-cases (bytes_eq (contents f) content)) [
              | inl same ↦
                  delivered f e at_destination (bytes_eq_sound (contents f) content same) cleaned
              | inr other ↦
                  collides f at_destination
                    (λ x. false≢true (sym other ∙ (bytes_eq_iff (contents f) content).1 x)) hash
                    verified
            ]
        | keeps e same clean ↦ refused e same clean
      ]
