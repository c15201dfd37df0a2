-- ===== src/Files/Upload/Parts.antt =====
-- backend/src/files/file_manager_service.cpp, WriteUploadChunk: one part, when the bytes before it are
-- in the temporary file.
use space_station.Prelude.{
  ==_iff, Bool-cases, List, Option, [], ap, arith, false, inl, inr, none, ok, refl, some, sym, true,
  ◌++◌, ◌+◌, ◌==◌, ◌∙◌, ◌∷◌, ◌≡◌, ◌≢◌, ◌⊎◌,
}
use mathlib.Core.Bool.{false≢true}
use space_station.Files.Paths.{FilePath, child-injective}
use space_station.Files.Disk.{
  move_entry, Fs, directory, Plain, Node, file, put-apart, is_directory, exists_here, put, put-same,
  read_file-file, is_writable-Plain, write_file-Plain,
}
use space_station.Prelude.Bytes.{Bytes}
use space_station.Files.Upload.{
  reset_file, finish_upload, store_part, after_write, append_content, Part, answered, no_faults,
  validate_upload_id, reports_failure, Target, length, temporary_name, landed_bytes, is_absolute,
  answer, validate_name,
}

abbrev pub joined : List Bytes → Bytes
joined [] = []
joined (c ∷ cs) = c ++ joined cs

abbrev pub destination_of : FilePath → Part → FilePath
destination_of parent p = parent ++ p.file_name ∷ []

abbrev pub temporary_of : FilePath → Part → FilePath
temporary_of parent p = parent ++ temporary_name p.upload_id ∷ []

-- The arguments of an upload that are the same for each part.
pub record Ready (canonical : Bytes → Option FilePath) (parent : FilePath) (p : Part) : Type 0 where
  pub id : validate_upload_id p.upload_id ≡ ok tt
  pub absolute : is_absolute p.directory_path ≡ true
  pub resolved : canonical p.directory_path ≡ some parent
  pub name : validate_name p.file_name ≡ ok p.file_name
  pub apart : p.file_name ≢ temporary_name p.upload_id

-- The file system when `acc` is uploaded.
pub record Holds (parent : FilePath) (p : Part) (acc : Bytes) (fs : Fs) : Type 0 where
  pub folder : fs parent ≡ some directory
  pub no_folder : is_directory (fs (destination_of parent p)) ≡ false
  pub so_far : length acc ≡ p.offset
  pub temporary :
      (fs (temporary_of parent p) ≡ some (file acc))
      ⊎ ((p.offset ≡ 0) × (fs (temporary_of parent p) ≡ none))

-- The two file systems differ at most at the paths of the upload.
abbrev pub SameElsewhere : FilePath → Part → Fs → Fs → Type 0
SameElsewhere parent p fs fs' =
    (q : FilePath) → q ≢ temporary_of parent p → q ≢ destination_of parent p → fs' q ≡ fs q

plain :
    (parent : FilePath) (p : Part) (acc : Bytes) (fs : Fs)
    → Holds parent p acc fs
    → Plain fs (temporary_of parent p)
plain parent p acc fs h = elim h.temporary [ inl e ↦ inr (acc, e) | inr e ↦ inl e.1 ]

pub reset_file-Holds :
    (parent : FilePath) (p : Part) (acc : Bytes) (fs : Fs)
    → Holds parent p acc fs
    → (fs₁ : Fs) × (reset_file no_faults fs (temporary_of parent p) p ≡ ok fs₁)
      × (fs₁ (temporary_of parent p) ≡ some (file acc))
      × ((q : FilePath) → q ≢ temporary_of parent p → fs₁ q ≡ fs q)
unfolding reset_file
reset_file-Holds parent p acc fs h = elim (Bool-cases (p.offset == 0)) [
  | inr later ↦ rw later (fs, refl, held later h.temporary, λ q n. refl)
  | inl first ↦
      let e = none_yet acc (h.so_far ∙ (==_iff p.offset 0).0 first) in
      rw
        (
          first,
          is_writable-Plain fs _ (plain parent p acc fs h),
          write_file-Plain fs _ [] (plain parent p acc fs h),
        )
        (
          put fs (temporary_of parent p) (some (file [])),
          refl,
          put-same fs (temporary_of parent p) (some (file [])) ∙ ap (λ b. some (file b)) (sym e),
          λ q n. put-apart fs (temporary_of parent p) q (some (file [])) n,
        )
]
  where
    none_yet : (b : Bytes) → length b ≡ 0 → b ≡ []
    none_yet [] e = refl
    none_yet (x ∷ xs) e = absurd (omega (arith, e))

    held :
        p.offset == 0 ≡ false
        → (fs (temporary_of parent p) ≡ some (file acc))
          ⊎ ((p.offset ≡ 0) × (fs (temporary_of parent p) ≡ none))
        → fs (temporary_of parent p) ≡ some (file acc)
    held later (inl t) = t
    held later (inr t) = absurd (false≢true (sym later ∙ (==_iff p.offset 0).1 t.0))

move_entry-moves :
    (fs : Fs) (p q : FilePath) (n : Option Node)
    → p ≢ q
    → fs p ≡ n
    → (move_entry fs p q q ≡ n)
      × (move_entry fs p q p ≡ none)
      × ((x : FilePath) → x ≢ p → x ≢ q → move_entry fs p q x ≡ fs x)
unfolding move_entry
move_entry-moves fs p q n apart e = (
  put-apart (put fs q (fs p)) p q none (λ k. apart (sym k)) ∙ put-same fs q (fs p) ∙ e,
  put-same (put fs q (fs p)) p none,
  λ x np nq. put-apart (put fs q (fs p)) p x none np ∙ put-apart fs q x (fs p) nq,
)

finish_upload-moves :
    (fs : Fs) (t : Target) (b : Bytes)
    → t.temporary ≢ t.destination
    → fs t.temporary ≡ some (file b)
    → is_directory (fs t.destination) ≡ false
    → (fs' : Fs) × (finish_upload no_faults fs t ≡ (fs', ok tt))
      × (fs' t.destination ≡ some (file b))
      × (fs' t.temporary ≡ none)
      × ((q : FilePath) → q ≢ t.temporary → q ≢ t.destination → fs' q ≡ fs q)
unfolding finish_upload
finish_upload-moves fs t b apart e d = elim (Bool-cases (exists_here (fs t.destination))) [
  | inr free ↦
      rw (d, free, e)
        (
          move_entry fs t.temporary t.destination,
          refl,
          (move_entry-moves fs _ _ _ apart e).0,
          (move_entry-moves fs _ _ _ apart e).1,
          (move_entry-moves fs _ _ _ apart e).2,
        )
  | inl taken ↦
      let e' = put-apart fs t.destination t.temporary none apart ∙ e in
      let (x, y, z) =
        move_entry-moves (put fs t.destination none) t.temporary t.destination _ apart e' in
      rw (d, taken, e')
        (
          move_entry (put fs t.destination none) t.temporary t.destination,
          refl,
          x,
          y,
          λ q np nq. z q np nq ∙ put-apart fs t.destination q none nq,
        )
]

-- One part, when the bytes before it are there: either more is to come, or the file is complete.
pub record Stored (parent : FilePath) (p : Part) (acc : Bytes) (fs fs' : Fs) : Type 0 where
  pub elsewhere : SameElsewhere parent p fs fs'
  pub completed :
      p.offset + length p.content ≡ p.total_size
      → (fs' (destination_of parent p) ≡ some (file (acc ++ p.content)))
        × (fs' (temporary_of parent p) ≡ none)
  pub continued :
      p.offset + length p.content ≢ p.total_size
      → (fs' (temporary_of parent p) ≡ some (file (acc ++ p.content)))
        × (fs' (destination_of parent p) ≡ fs (destination_of parent p))

abbrev pub target : FilePath → Part → Target
target parent p = record {
  destination = destination_of parent p;
  temporary = temporary_of parent p;
}

pub paths_apart :
    (parent : FilePath) (p : Part)
    → p.file_name ≢ temporary_name p.upload_id
    → temporary_of parent p ≢ destination_of parent p
paths_apart parent p n e = n (sym (child-injective parent _ _ e))

after_write-Stored :
    (parent : FilePath) (p : Part) (acc : Bytes) (fs w : Fs)
    → p.file_name ≢ temporary_name p.upload_id
    → ((q : FilePath) → q ≢ temporary_of parent p → w q ≡ fs q)
    → w (temporary_of parent p) ≡ some (file (acc ++ p.content))
    → is_directory (fs (destination_of parent p)) ≡ false
    → (fs' : Fs) × (after_write no_faults w (target parent p) p ≡ (fs', ok (answer p)))
      × Stored parent p acc fs fs'
unfolding after_write answered
after_write-Stored parent p acc fs w n same e d =
    elim (Bool-cases (p.offset + length p.content == p.total_size)) [
      | inr more ↦ rw more (
        w,
        refl,
        record {
          elsewhere = λ q m k. same q m;
          completed = λ k. absurd (false≢true (sym more ∙ (==_iff _ _).1 k));
          continued = λ k. (e, at_destination);
        },
      )
      | inl all ↦
          let (fs', moved, x, y, z) =
            finish_upload-moves w (target parent p) (acc ++ p.content) (paths_apart parent p n) e
              (ap is_directory at_destination ∙ d) in
          rw (all, moved, after_write)
            (
              fs',
              refl,
              record {
                elsewhere = λ q m k. z q m k ∙ same q m;
                completed = λ k. (x, y);
                continued = λ k. absurd (k ((==_iff _ _).0 all));
              },
            )
    ]
  where
    at_destination : w (destination_of parent p) ≡ fs (destination_of parent p)
    at_destination = same (destination_of parent p) (λ k. paths_apart parent p n (sym k))

pub store_part-Stored :
    (parent : FilePath) (p : Part) (acc : Bytes) (fs : Fs)
    → p.file_name ≢ temporary_name p.upload_id
    → fs (temporary_of parent p) ≡ some (file acc)
    → length acc ≡ p.offset
    → is_directory (fs (destination_of parent p)) ≡ false
    → (fs' : Fs) × (store_part no_faults fs (target parent p) p ≡ (fs', ok (answer p)))
      × Stored parent p acc fs fs'
unfolding store_part append_content reports_failure landed_bytes
store_part-Stored parent p acc fs n e long d =
    let T = temporary_of parent p in
    let w = put fs T (some (file (acc ++ p.content))) in
    rw
      (
        read_file-file fs T acc e,
        store_part,
        (==_iff (length acc) p.offset).1 long,
        write_file-Plain fs T (acc ++ p.content) (inr (acc, e)),
      )
      (after_write-Stored parent p acc fs w n (λ q m. put-apart fs T q _ m)
        (put-same fs T (some (file (acc ++ p.content)))) d)
