-- ===== src/Files/Upload/Accepted.antt =====
-- backend/src/files/file_manager_service.cpp, WriteUploadChunk: which parts are accepted.
use space_station.Prelude.{
  ==_iff, >>=-eq-ok, Bool, Bool-cases, Option, [], ap, arith, false, guard-eq-ok, inl, inr, ltb,
  ltb→le, none, not, ok, ok-injective, refl, some, subst, sym, true, ◌+◌, ◌-◌, ◌<◌, ◌==◌, ◌||◌, ◌↔◌,
  ◌∙◌, ◌∷◌, ◌≡◌, ◌≤◌, ◌⊎◌,
}
use space_station.Prelude.Bytes.{bytes_eq_refl, bytes_eq}
use mathlib.Core.Bool.{false≢true}
use space_station.Files.Names.{
  validate_upload_id, Error, Component, not_contiguous, cannot_open_temporary, write_failed,
  neither, denied, validate_name, invalid_range, validate_name-Component, invalid_upload_id,
}
use space_station.Files.Disk.{Fs, read_file}
use space_station.Files.Upload.{
  after_write, store_part, answered, Faults, Part, append_content, Bytes, length, Result,
  finish_upload, Target, Uploaded, answer, err, reports_failure, write_upload_chunk, check_part,
  reset_file, is_in_range, FilePath, resolve_directory, guard,
}

-- What is known of a part that is accepted.
pub record Accepted (fs : Fs) (p : Part) (t : Target) (u : Uploaded) : Type 0 where
  pub name : Component p.file_name
  pub id_bounds : (0 < length p.upload_id) × (length p.upload_id ≤ 80)
  pub in_range : p.offset + length p.content ≤ p.total_size
  pub in_order :
      (p.offset ≡ 0) ⊎ ((b : Bytes) × (read_file fs t.temporary ≡ some b) × (length b ≡ p.offset))
  pub counted : u.uploaded_bytes ≡ p.offset + length p.content
  pub complete_iff : (u.complete ≡ true) ↔ (u.uploaded_bytes ≡ p.total_size)

passed :
    (a b c : Bool) {u : Unit {0}}
    → guard (not (a || b || c)) invalid_upload_id ≡ ok u
    → (a ≡ false) × (b ≡ false)
passed true b c h = cc
passed false true c h = cc
passed false false c h = (refl, refl)

validate_upload_id-bounds :
    (id : Bytes) → validate_upload_id id ≡ ok tt → (0 < length id) × (length id ≤ 80)
unfolding validate_upload_id
validate_upload_id-bounds id h =
    let (nonempty, short) = passed (bytes_eq id []) (ltb 80 (length id)) _ h in
    (at_least id nonempty, ltb→le _ _ short)
  where
    at_least : (b : Bytes) → bytes_eq b [] ≡ false → 0 < length b
    at_least [] e = absurd (false≢true (sym e ∙ bytes_eq_refl []))
    at_least (x ∷ xs) e = omega arith

answered-ok :
    (p : Part) (r : Fs × Result Error (Unit {0})) (u : Uploaded)
    → (answered p r).1 ≡ ok u
    → u ≡ answer p
unfolding answered
answered-ok p (fs, err e) u h = cc
answered-ok p (fs, ok done) u h = sym (ok-injective h)

after_write-ok :
    (f : Faults) (fs : Fs) (t : Target) (p : Part) (u : Uploaded)
    → (after_write f fs t p).1 ≡ ok u
    → u ≡ answer p
unfolding after_write
after_write-ok f fs t p u h = elim (Bool-cases (p.offset + length p.content == p.total_size)) [
  | inl all ↦ answered-ok p (finish_upload f fs t) u (rw all at h)
  | inr more ↦ sym (ok-injective (rw more at h))
]

store_part-ok :
    (f : Faults) (fs : Fs) (t : Target) (p : Part) (u : Uploaded)
    → (store_part f fs t p).1 ≡ ok u
    → (b : Bytes) × (read_file fs t.temporary ≡ some b) × (length b ≡ p.offset) × (u ≡ answer p)
unfolding store_part append_content after_write finish_upload
store_part-ok f fs t p u h = go (read_file fs t.temporary) refl
  where
    go :
        (o : Option Bytes)
        → read_file fs t.temporary ≡ o
        → (b : Bytes) × (read_file fs t.temporary ≡ some b) × (length b ≡ p.offset) × (u ≡ answer p)
    go none e =
        let k : ◌≡◌ {A = Result Error Uploaded} (err not_contiguous) (ok u) =
          rw (e, store_part) at h in
        absurd cc
    go (some b) e = elim (Bool-cases (length b == p.offset)) [
      | inr l ↦
          let k : ◌≡◌ {A = Result Error Uploaded} (err not_contiguous) (ok u) =
            rw (e, store_part, l) at h in
          absurd cc
      | inl l ↦ elim (Bool-cases f.append) [
        | inl a ↦
            let k : ◌≡◌ {A = Result Error Uploaded} (err cannot_open_temporary) (ok u) =
              rw (e, store_part, l, a) at h in
            absurd cc
        | inr a ↦ elim (Bool-cases (reports_failure f.landed)) [
          | inl r ↦
              let k : ◌≡◌ {A = Result Error Uploaded} (err write_failed) (ok u) =
                rw (e, store_part, l, a, r) at h in
              absurd cc
          | inr r ↦ (
            b,
            e,
            (==_iff _ _).0 l,
            after_write-ok f (append_content f fs t p b) t p u (rw (e, store_part, l, a, r) at h),
          )
        ]
      ]
    ]

check_part-ok :
    (canonical : Bytes → Option FilePath) (fs : Fs) (p : Part) (t : Target)
    → check_part canonical fs p ≡ ok t
    → Component p.file_name
      × (0 < length p.upload_id)
      × (length p.upload_id ≤ 80)
      × (p.offset + length p.content ≤ p.total_size)
unfolding check_part is_in_range
check_part-ok canonical fs p t h =
    let (_, id, h₁) = >>=-eq-ok (validate_upload_id p.upload_id) _ h in
    let (parent, _, h₂) = >>=-eq-ok (resolve_directory canonical fs p.directory_path) _ h₁ in
    let (name, named, h₃) = >>=-eq-ok (validate_name p.file_name) _ h₂ in
    let (_, fits, _) = >>=-eq-ok (guard (is_in_range p) invalid_range) _ h₃ in
    let (low, high) =
      neither (ltb p.total_size p.offset) (ltb (p.total_size - p.offset) (length p.content))
        (guard-eq-ok (is_in_range p) invalid_range fits) in
    let (least, most) = validate_upload_id-bounds p.upload_id id in
    (
      (validate_name-Component p.file_name name named).1,
      least,
      most,
      omega (arith, ltb→le _ _ (denied _ low), ltb→le _ _ high),
    )

-- A part that is accepted, whatever the operating system refuses, has a name that is one component of a
-- path, an upload id of 1 to 80 bytes and bytes within the announced size; it starts the upload or
-- continues exactly where the temporary file ends; and the answer counts the bytes so far, and says
-- that the upload is complete just when they are as many as announced.
pub write_upload_chunk-Accepted :
    (canonical : Bytes → Option FilePath) (f : Faults) (fs : Fs) (p : Part) (u : Uploaded)
    → (write_upload_chunk canonical f fs p).1 ≡ ok u
    → (t : Target) × (check_part canonical fs p ≡ ok t) × Accepted fs p t u
unfolding write_upload_chunk reset_file
write_upload_chunk-Accepted canonical f fs p u h = go (check_part canonical fs p) refl
  where
    counts :
        (t : Target)
        → check_part canonical fs p ≡ ok t
        → u ≡ answer p
        → (p.offset ≡ 0)
          ⊎ ((b : Bytes) × (read_file fs t.temporary ≡ some b) × (length b ≡ p.offset))
        → Accepted fs p t u
    counts t checked e order =
        let (name, least, most, fits) = check_part-ok canonical fs p t checked in
        record {
          name = name;
          id_bounds = (least, most);
          in_range = fits;
          in_order = order;
          counted = ap (λ (x : Uploaded). x.uploaded_bytes) e ∙ unfold answer in refl;
          complete_iff =
              subst (λ (x : Uploaded). (x.complete ≡ true) ↔ (x.uploaded_bytes ≡ p.total_size))
                (sym e) (unfold answer in ==_iff (p.offset + length p.content) p.total_size);
        }

    stored :
        (t : Target) (m : Result Error Fs)
        → check_part canonical fs p ≡ ok t
        → reset_file f fs t.temporary p ≡ m
        → Accepted fs p t u
    stored t (err e) checked r =
        let k : ◌≡◌ {A = Result Error Uploaded} (err e) (ok u) =
          rw (checked, write_upload_chunk, r) at h in
        absurd cc
    stored t (ok fs₁) checked r =
        let (b, read, long, e) =
          store_part-ok f fs₁ t p u (rw (checked, write_upload_chunk, r) at h) in
        counts t checked e (elim (Bool-cases (p.offset == 0)) [
          | inl first ↦ inl ((==_iff _ _).0 first)
          | inr later ↦
              let same : fs ≡ fs₁ = ok-injective (rw (later, reset_file) at r) in
              inr (b, ap (λ x. read_file x t.temporary) same ∙ read, long)
        ])

    go :
        (m : Result Error Target)
        → check_part canonical fs p ≡ m
        → (t : Target) × (check_part canonical fs p ≡ ok t) × Accepted fs p t u
    go (err e) checked =
        let k : ◌≡◌ {A = Result Error Uploaded} (err e) (ok u) =
          rw (checked, write_upload_chunk) at h in
        absurd cc
    go (ok t) checked = (t, checked, stored t (reset_file f fs t.temporary p) checked refl)
