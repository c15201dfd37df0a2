-- ===== src/Files/Upload/Whole.antt =====
-- backend/src/files/file_manager_service.cpp, WriteUploadChunk: an upload in parts, one after the other.
use space_station.Prelude.{
  ==_refl, All, List, Option, Result, [], ap, arith, err, false, inl, inr, length-append, none, ok,
  refl, some, sym, true, ℕ, ◌++◌, ◌+◌, ◌<◌, ◌∙◌, ◌∷◌, ◌≡◌, ◌≢◌, ◌≤◌,
}
use mathlib.Core.List.{append-nil, append_assoc}
use space_station.Files.Upload.Parts.{
  Holds, Ready, joined, Stored, destination_of, target, reset_file-Holds, temporary_of, paths_apart,
  SameElsewhere, store_part-Stored,
}
use space_station.Files.Names.{Error}
use space_station.Files.Upload.{
  write_upload_chunk, is_in_range, check_part, Part, answer, Uploaded, length, resolve_directory,
  no_faults,
}
use space_station.Files.Paths.{FilePath, child_apart}
use space_station.Files.Disk.{Fs, directory, file, is_directory}
use space_station.Prelude.Bytes.{Bytes}

-- The parts of one upload, sent in order until one is refused.
unfoldable pub next_parts :
    (Fs → Fs × Result Error Uploaded) → Fs × Result Error Uploaded → Fs × Result Error Uploaded
next_parts later (fs, err e) = (fs, err e)
next_parts later (fs, ok reply) = later fs

unfoldable pub send_parts :
    (Bytes → Option FilePath) → Fs → Part → Bytes → List Bytes → Fs × Result Error Uploaded
send_parts canonical fs p c [] =
    write_upload_chunk canonical no_faults fs (record p { content = c })
send_parts canonical fs p c (d ∷ ds) =
    next_parts (λ fs'. send_parts canonical fs' (record p { offset = p.offset + length c }) d ds)
      (write_upload_chunk canonical no_faults fs (record p { content = c }))

module _ (canonical : Bytes → Option FilePath) (parent : FilePath) where
  check_part-target :
      (fs : Fs) (p : Part)
      → Ready canonical parent p
      → fs parent ≡ some directory
      → is_in_range p ≡ true
      → check_part canonical fs p ≡ ok (target parent p)
  unfolding check_part resolve_directory
  check_part-target fs p ready folder fits =
      rw (ready.id, ready.absolute, ready.resolved, folder, ready.name, fits) refl

  write_upload_chunk-Stored :
      (fs : Fs) (p : Part) (acc : Bytes)
      → Ready canonical parent p
      → Holds parent p acc fs
      → is_in_range p ≡ true
      → (fs' : Fs) × (write_upload_chunk canonical no_faults fs p ≡ (fs', ok (answer p)))
        × Stored parent p acc fs fs'
  unfolding write_upload_chunk
  write_upload_chunk-Stored fs p acc ready h fits =
      let (fs₁, reset, e, same) = reset_file-Holds parent p acc fs h in
      let at_destination =
        same (destination_of parent p) (λ k. paths_apart parent p ready.apart (sym k)) in
      let (fs', stored, u) =
        store_part-Stored parent p acc fs₁ ready.apart e h.so_far
          (ap is_directory at_destination ∙ h.no_folder) in
      rw (check_part-target fs p ready h.folder fits, write_upload_chunk, reset)
        (
          fs',
          stored,
          record {
            elsewhere = λ q m k. u.elsewhere q m k ∙ same q m;
            completed = u.completed;
            continued = λ k. ((u.continued k).0, (u.continued k).1 ∙ at_destination);
          },
        )

  Holds-next :
      (fs fs' : Fs) (p : Part) (acc : Bytes)
      → Holds parent p acc fs
      → Stored parent p acc fs fs'
      → p.offset + length p.content ≢ p.total_size
      → Holds parent (record p { offset = p.offset + length p.content }) (acc ++ p.content) fs'
  Holds-next fs fs' p acc h u more = record {
    folder =
        u.elsewhere parent (λ k. child_apart parent _ (sym k)) (λ k. child_apart parent _ (sym k))
        ∙ h.folder;
    no_folder = ap is_directory (u.continued more).1 ∙ h.no_folder;
    so_far = omega (arith, length-append acc p.content, h.so_far);
    temporary = inl (u.continued more).0;
  }

  -- What a whole upload leaves.
  pub record Arrived (p : Part) (whole : Bytes) (fs : Fs) (end : Fs × Result Error Uploaded)
      : Type 0 where
    pub replied :
        end.1
        ≡ ok (record { uploaded_bytes = p.total_size; total_bytes = p.total_size; complete = true })
    pub arrived : end.0 (destination_of parent p) ≡ some (file whole)
    pub cleaned : end.0 (temporary_of parent p) ≡ none
    pub elsewhere : SameElsewhere parent p fs end.0

  Ready-part :
      (p : Part) (offset : ℕ) (content : Bytes)
      → Ready canonical parent p
      → Ready canonical parent (record p { offset = offset; content = content })
  Ready-part p offset content ready = record {
    id = ready.id;
    absolute = ready.absolute;
    resolved = ready.resolved;
    name = ready.name;
    apart = ready.apart;
  }

  Holds-content :
      (p : Part) (acc content : Bytes) (fs : Fs)
      → Holds parent p acc fs
      → Holds parent (record p { content = content }) acc fs
  Holds-content p acc content fs h = record {
    folder = h.folder;
    no_folder = h.no_folder;
    so_far = h.so_far;
    temporary = h.temporary;
  }

  fits : (p : Part) → p.offset + length p.content ≤ p.total_size → is_in_range p ≡ true
  unfolding is_in_range
  fits p h = ground arith

  -- The last part.
  last-Arrived :
      (fs : Fs) (p : Part) (acc : Bytes)
      → Ready canonical parent p
      → Holds parent p acc fs
      → p.offset + length p.content ≡ p.total_size
      → Arrived p (acc ++ p.content) fs (write_upload_chunk canonical no_faults fs p)
  unfolding answer
  last-Arrived fs p acc ready h total =
      let (fs', written, u) =
        write_upload_chunk-Stored fs p acc ready h (fits p (omega (arith, total))) in
      let (x, y) = u.completed total in
      rw written (record {
        replied = rw (total, ==_refl p.total_size) refl;
        arrived = x;
        cleaned = y;
        elsewhere = u.elsewhere;
      })

  -- The parts that are left, behind the bytes `acc`.
  send_parts-Arrived :
      (fs : Fs) (p : Part) (acc c : Bytes) (ds : List Bytes)
      → Ready canonical parent p
      → Holds parent p acc fs
      → p.offset + length (joined (c ∷ ds)) ≡ p.total_size
      → All (λ d. 0 < length d) ds
      → Arrived p (acc ++ joined (c ∷ ds)) fs (send_parts canonical fs p c ds)
  unfolding send_parts next_parts
  send_parts-Arrived fs p acc c [] ready h total nonempty =
      let e : c ++ [] ≡ c = append-nil c in
      let a =
        last-Arrived fs (record p { content = c }) acc (Ready-part p p.offset c ready)
          (Holds-content p acc c fs h) (ap (λ b. p.offset + length b) (sym e) ∙ total) in
      record {
        replied = a.replied;
        arrived = a.arrived ∙ ap (λ b. some (file (acc ++ b))) (sym e);
        cleaned = a.cleaned;
        elsewhere = a.elsewhere;
      }
  send_parts-Arrived fs p acc c (d ∷ ds) ready h total nonempty =
      let q = record p { content = c } in
      let short : p.offset + length c < p.total_size =
        omega (
          arith,
          total,
          length-append c (d ++ joined ds),
          length-append d (joined ds),
          nonempty.0,
        ) in
      let (fs', written, u) =
        write_upload_chunk-Stored fs q acc (Ready-part p p.offset c ready)
          (Holds-content p acc c fs h) (fits q (omega (arith, short))) in
      let more : p.offset + length c ≢ p.total_size = (λ k. omega (arith, short, k)) in
      let next = record p { offset = p.offset + length c } in
      let a =
        send_parts-Arrived fs' next (acc ++ c) d ds (Ready-part p next.offset p.content ready)
          (Holds-content (record q { offset = next.offset }) (acc ++ c) p.content fs'
            (Holds-next fs fs' q acc (Holds-content p acc c fs h) u more))
          (omega (arith, total, length-append c (d ++ joined ds))) nonempty.1 in
      rw (written, send_parts)
        (record {
          replied = a.replied;
          arrived = a.arrived ∙ ap (λ b. some (file b)) (append_assoc acc c (d ++ joined ds));
          cleaned = a.cleaned;
          elsewhere = λ x m k. a.elsewhere x m k ∙ u.elsewhere x m k;
        })

  -- The parts of one file, sent in order, are put together at its destination: if the upload id and
  -- the name pass their tests, the name is not the name of the temporary file of that upload id, the
  -- path of the folder is absolute and resolves to a folder, no folder is at the destination and
  -- nothing at the temporary path, every part after the first has a byte, the announced size is the
  -- sum of the parts, and the operating system refuses nothing, then the last answer is that the
  -- upload is complete, the destination holds the parts' bytes in order, the temporary file is gone,
  -- and no other path has changed.
  pub send_parts-whole :
      (fs : Fs) (p : Part) (c : Bytes) (ds : List Bytes)
      → Ready canonical parent p
      → fs parent ≡ some directory
      → is_directory (fs (destination_of parent p)) ≡ false
      → fs (temporary_of parent p) ≡ none
      → p.offset ≡ 0
      → length (joined (c ∷ ds)) ≡ p.total_size
      → All (λ d. 0 < length d) ds
      → Arrived p (joined (c ∷ ds)) fs (send_parts canonical fs p c ds)
  send_parts-whole fs p c ds ready folder no_folder empty start total nonempty =
      send_parts-Arrived fs p [] c ds ready
        (record {
          folder = folder;
          no_folder = no_folder;
          so_far = sym start;
          temporary = inr (start, empty);
        })
        (omega (arith, start, total)) nonempty
