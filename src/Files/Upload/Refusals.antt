-- ===== src/Files/Upload/Refusals.antt =====
-- backend/src/files/file_manager_service.cpp, WriteUploadChunk: what a part leaves alone that does not
-- complete the upload, and which parts are accepted.
use space_station.Prelude.{
  >>=-eq-ok, Bool, Bool-cases, Option, Result, [], ap, err, false, if◌then◌else◌, inl, inr, none,
  not, ok, ok-injective, refl, some, subst, sym, true, ◌&&◌, ◌+◌, ◌==◌, ◌>>◌, ◌||◌, ◌∙◌, ◌≡◌, ◌≢◌,
}
use mathlib.Core.Bool.{false≢true}
use space_station.Files.Names.{cannot_finish, cannot_create_temporary}
use space_station.Files.Disk.{
  Plain, is_writable, write_file, write_file-Plain, put-same, file, put-apart, exists_here,
  read_file, put, is_directory,
}
use space_station.Files.Upload.{
  reset_file, store_part, finish_upload, Error, answered, Faults, Fs, answer, Uploaded, Part,
  Target, FilePath, length, guard, Bytes, after_write, write_upload_chunk, append_content,
  check_part, reports_failure,
}

-- The answers after which the destination may have changed: the upload is complete, or the last rename
-- has failed when the old file was removed already.
abbrev pub may_replace : Result Error Uploaded → Bool
may_replace (ok u) = u.complete
may_replace (err cannot_finish) = true
may_replace (err e) = false

finish_upload-keeps :
    (f : Faults) (p : Part) (fs : Fs) (t : Target)
    → p.offset + length p.content == p.total_size ≡ true
    → may_replace (answered p (finish_upload f fs t)).1 ≡ false
    → (answered p (finish_upload f fs t)).0 ≡ fs
unfolding finish_upload answered answer
finish_upload-keeps f p fs t all h =
    let none_left : true ≡ false → ◌≡◌ {A = Fs} (answered p (finish_upload f fs t)).0 fs =
      (λ k. absurd (false≢true (sym k))) in
    let cleared = if exists_here (fs t.destination) then put fs t.destination none else fs in
    elim (Bool-cases f.status) [
      | inl s ↦ rw s refl
      | inr s ↦ elim (Bool-cases (is_directory (fs t.destination))) [
        | inl d ↦ rw (s, d) refl
        | inr d ↦ elim (Bool-cases (exists_here (fs t.destination) && f.remove)) [
          | inl r ↦ rw (s, d, r) refl
          | inr r ↦ elim (Bool-cases (f.rename || not (exists_here (cleared t.temporary)))) [
            | inl m ↦ none_left (rw (s, d, r, m) at h)
            | inr m ↦ none_left (sym all ∙ (rw (s, d, r, m) at h))
          ]
        ]
      ]
    ]

reset_file-only :
    (f : Faults) (fs fs₁ : Fs) (temporary : FilePath) (p : Part)
    → Plain fs temporary
    → reset_file f fs temporary p ≡ ok fs₁
    → Plain fs₁ temporary × ((q : FilePath) → q ≢ temporary → fs₁ q ≡ fs q)
unfolding reset_file
reset_file-only f fs fs₁ temporary p plain h = elim (Bool-cases (p.offset == 0)) [
  | inr later ↦
      let e : fs ≡ fs₁ = ok-injective (rw later at h) in
      (subst (λ x. Plain x temporary) e plain, λ q n. ap (λ (x : Fs). x q) (sym e))
  | inl first ↦
      let h₁ : (guard (not f.reset && is_writable fs temporary) cannot_create_temporary
            >> ok (write_file fs temporary []))
          ≡ ok fs₁ =
        rw first at h in
      let (_, _, h₂) =
        >>=-eq-ok (guard (not f.reset && is_writable fs temporary) cannot_create_temporary)
          (λ _. ok (write_file fs temporary [])) h₁ in
      let e = sym (write_file-Plain fs temporary [] plain) ∙ ok-injective h₂ in
      (
        inr ([], ap (λ (x : Fs). x temporary) (sym e) ∙ put-same fs temporary (some (file []))),
        λ q n. ap (λ (x : Fs). x q) (sym e) ∙ put-apart fs temporary q (some (file [])) n,
      )
]

after_write-keeps :
    (f : Faults) (p : Part) (fs : Fs) (t : Target)
    → may_replace (after_write f fs t p).1 ≡ false
    → (after_write f fs t p).0 ≡ fs
unfolding after_write
after_write-keeps f p fs t h = elim (Bool-cases (p.offset + length p.content == p.total_size)) [
  | inr more ↦ rw more refl
  | inl all ↦ rw all (finish_upload-keeps f p fs t all (rw all at h))
]

store_part-keeps :
    (f : Faults) (fs : Fs) (t : Target) (p : Part) (q : FilePath)
    → Plain fs t.temporary
    → may_replace (store_part f fs t p).1 ≡ false
    → q ≢ t.temporary
    → (store_part f fs t p).0 q ≡ fs q
unfolding store_part append_content after_write finish_upload
store_part-keeps f fs t p q plain h n = go (read_file fs t.temporary) refl
  where
    appended : (stored : Bytes) → append_content f fs t p stored q ≡ fs q
    appended stored =
        ap (λ (x : Fs). x q) (write_file-Plain fs t.temporary _ plain)
        ∙ put-apart fs t.temporary q _ n

    go : (o : Option Bytes) → read_file fs t.temporary ≡ o → (store_part f fs t p).0 q ≡ fs q
    go none e = rw (e, store_part) refl
    go (some stored) e = elim (Bool-cases (length stored == p.offset)) [
      | inr l ↦ rw (e, store_part, l) refl
      | inl l ↦ elim (Bool-cases f.append) [
        | inl a ↦ rw (e, store_part, l, a) refl
        | inr a ↦ elim (Bool-cases (reports_failure f.landed)) [
          | inl r ↦ rw (e, store_part, l, a, r) (appended stored)
          | inr r ↦
              rw (e, store_part, l, a, r)
                (ap (λ (x : Fs). x q)
                    (after_write-keeps f p (append_content f fs t p stored) t
                      (rw (e, store_part, l, a, r) at h))
                  ∙ appended stored)
        ]
      ]
    ]

-- Whatever the operating system refuses, a part that is not answered with the end of the upload, nor
-- with a failure of the last rename, changes no path but that of the temporary file, if nothing or a
-- file is at that path.
pub write_upload_chunk-keeps :
    (canonical : Bytes → Option FilePath) (f : Faults) (fs : Fs) (p : Part) (t : Target)
    (q : FilePath)
    → check_part canonical fs p ≡ ok t
    → Plain fs t.temporary
    → may_replace (write_upload_chunk canonical f fs p).1 ≡ false
    → q ≢ t.temporary
    → (write_upload_chunk canonical f fs p).0 q ≡ fs q
unfolding write_upload_chunk
write_upload_chunk-keeps canonical f fs p t q checked plain h n =
    go (reset_file f fs t.temporary p) refl
  where
    go :
        (m : Result Error Fs)
        → reset_file f fs t.temporary p ≡ m
        → (write_upload_chunk canonical f fs p).0 q ≡ fs q
    go (err e) r = rw (checked, write_upload_chunk, r) refl
    go (ok fs₁) r =
        let (plain₁, same) = reset_file-only f fs fs₁ t.temporary p plain r in
        rw (checked, write_upload_chunk, r)
          (store_part-keeps f fs₁ t p q plain₁ (rw (checked, write_upload_chunk, r) at h) n
            ∙ same q n)
