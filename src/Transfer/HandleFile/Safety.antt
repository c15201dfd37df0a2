-- ===== src/Transfer/HandleFile/Safety.antt =====
-- backend/src/transfer/transfer.cpp: what an upload may do to the destination.
use mathlib.Core.Bool.{false≢true}
use space_station.Prelude.{
  ==_iff, >>=-eq-ok, All, Bool, Bool-cases, List, Option, Result, [], ap, err, false, get_or, guard,
  inl, inr, length, length-replicate, none, not, ok, ok-injective, or_throw, refl, replicate, some,
  subst, suc, sym, true, zero, ℕ, ◌&&◌, ◌*◌, ◌<◌, ◌==◌, ◌>>=◌, ◌∙◌, ◌∷◌, ◌≡◌, ◌≢◌, ◌≤◌, ◌⊎◌,
}
use space_station.Transfer.Stream.Complete.{receive_stream-Verified}
use space_station.Transfer.Receive.{receive_all}
use space_station.Transfer.Candidates.Sound.{find_blocks-Verified}
use space_station.Transfer.Receive.Integrity.{Verified, count_missing, size_max, none_missing}
use space_station.Transfer.Receive.Complete.{Inv, receive_all-Verified}
use space_station.Transfer.Manifest.Bounds.{Accepted, check_manifest-Accepted}
use space_station.Transfer.Disk.{File, contents, slice}
use space_station.Transfer.Manifest.{
  Request, Error, check_manifest, connection_closed, missing_commit, write_failed,
}
use space_station.Transfer.HandleFile.{
  handle_file, receive_file, plan, Disk, Upload, Reply, committed, matches_commit, count_unmatched,
  commit_file, is_some, Finish, send_reply, put_in_place, rejected, target_exists, threw, Inflated,
  receive_body, State, Body, Progress, in_chunks, in_stream, receive_stream,
}
use space_station.Prelude.Bytes.{Bytes, bytes_eq, bytes_eq_sound}
use space_station.Transfer.Scan.{no_signature, Signature}

count_same : (ms : List Bool) → count_unmatched ms ≡ count_missing ms
unfolding count_unmatched
count_same [] = refl
count_same (true ∷ ms) = count_same ms
count_same (false ∷ ms) = ap suc (count_same ms)

none_matched : (n i : ℕ) → get_or (replicate n false) i false ≡ false
none_matched zero i = refl
none_matched (suc n) zero = refl
none_matched (suc n) (suc i) = none_matched n i

-- A reply after a commit: its answer, or the error of a connection that did not take it.
abbrev pub AfterCommit : Reply → Type 0
AfterCommit reply = (reply ≡ committed) ⊎ (reply ≡ threw write_failed)

-- Where a server may put a file.
abbrev pub MayReplace : Bool → Disk → Type 0
MayReplace overwrite d = (overwrite ≡ true) ⊎ (d.destination ≡ none)

-- The two ends of an upload: a commit, with the file that it put in place, or anything else, which
-- leaves the destination alone and no new temporary file, and is not answered with a commit.
pub data Ends (sha256 : Bytes → Bytes) (overwrite : Bool) (r : Request) (d d' : Disk)
    (reply : Reply) : Type 0 where
  commits :
      (f : File)
      → AfterCommit reply
      → MayReplace overwrite d
      → d'.destination ≡ some f
      → d'.temporary ≡ none
      → sha256 (contents f) ≡ r.full_hash
      → Verified sha256 r.signatures r.chunk_size
          (record { matched = replicate (length r.signatures) true; output = f; matched_bytes = 0 })
      → Ends sha256 overwrite r d d' reply
  keeps :
      reply ≢ committed
      → d'.destination ≡ d.destination
      → (d' ≡ d) ⊎ (d'.temporary ≡ none)
      → Ends sha256 overwrite r d d' reply

-- An answer that is not a commit does not become one.
send_reply-other : (o : Finish) (reply : Reply) → reply ≢ committed → send_reply o reply ≢ committed
unfolding send_reply
send_reply-other o reply n e = elim (Bool-cases o.answered) [
  | inl sent ↦ n (rw sent at e)
  | inr lost ↦ let k : threw write_failed ≡ committed = rw lost at e in cc
]

send_reply-AfterCommit : (o : Finish) → AfterCommit (send_reply o committed)
unfolding send_reply
send_reply-AfterCommit o = elim (Bool-cases o.answered) [
  | inl sent ↦ rw sent (inl refl)
  | inr lost ↦ rw lost (inr refl)
]

put_in_place-Ends :
    (sha256 : Bytes → Bytes) (overwrite : Bool) (r : Request) (o : Finish) (d : Disk) (f : File)
    → sha256 (contents f) ≡ r.full_hash
    → Verified sha256 r.signatures r.chunk_size
        (record { matched = replicate (length r.signatures) true; output = f; matched_bytes = 0 })
    → MayReplace overwrite d
    → Ends sha256 overwrite r d (put_in_place o d f).0 (put_in_place o d f).1
unfolding put_in_place
put_in_place-Ends sha256 overwrite r o d f hash verified may =
    elim (Bool-cases (not o.permissions_set)) [
      | inl refused ↦ rw refused (keeps (λ x. cc) refl (inr refl))
      | inr set ↦ elim (Bool-cases (not o.renamed)) [
        | inl stuck ↦ rw (set, stuck) (keeps (λ x. cc) refl (inr refl))
        | inr moved ↦
            rw (set, moved) (commits f (send_reply-AfterCommit o) may refl refl hash verified)
      ]
    ]

may_replace :
    (overwrite : Bool) (o : Option File)
    → not overwrite && is_some o ≡ false
    → (overwrite ≡ true) ⊎ (o ≡ none)
unfolding is_some
may_replace true o h = inl refl
may_replace false none h = inr refl
may_replace false (some f) h = absurd cc

module _ (sha256 : Bytes → Bytes) (uncompress : Bytes → ℕ → Option Bytes) {Z : Type 0}
    (inflate : Z → Bytes → Inflated Z) (fresh_inflater : Z) where
  pub plan-Inv :
      (few : ℕ → Bool) (r : Request) (u : Upload)
      → Accepted r
      → Inv sha256 r (plan sha256 uncompress inflate fresh_inflater few r u)
  unfolding plan
  plan-Inv few r u a = record {
    verified =
        find_blocks-Verified sha256 r.signatures r.chunk_size
          (size_max r.chunk_size r.signatures a.sizes) few u.same_name u.others _
          (record {
            same_length = length-replicate (length r.signatures) false;
            hashed = λ i e. absurd (false≢true (sym (none_matched (length r.signatures) i) ∙ e));
          });
    counted = count_same (plan sha256 uncompress inflate fresh_inflater few r u).progress.matched;
  }

  receive_body-Verified :
      (r : Request) (st : State) (body : Body) (p : Progress)
      → All (λ (s : Signature). (0 < s.size) × (s.size ≤ r.chunk_size)) r.signatures
      → Inv sha256 r st
      → receive_body sha256 uncompress inflate fresh_inflater r st body ≡ ok p
      → Verified sha256 r.signatures r.chunk_size p
        × (p.matched ≡ replicate (length r.signatures) true)
  unfolding receive_body
  receive_body-Verified r st body p sizes v h = elim (Bool-cases (st.remaining == 0)) [
    | inl done ↦
        let e : st.progress ≡ p = ok-injective (rw done at h) in
        let full =
          none_missing st.progress.matched (sym v.counted ∙ (==_iff st.remaining 0).0 done)
          ∙ ap (λ n. replicate n true) v.verified.same_length in
        subst
          (λ (q : Progress).
            Verified sha256 r.signatures r.chunk_size q
            × (q.matched ≡ replicate (length r.signatures) true))
          e (v.verified, full)
    | inr some_left ↦ go body (rw some_left at h)
  ]
    where
      Good : Progress → Type 0
      Good q =
          Verified sha256 r.signatures r.chunk_size q
          × (q.matched ≡ replicate (length r.signatures) true)

      go :
          (b : Body)
          → (elim b [
            | in_chunks cs ↦ receive_all sha256 uncompress r st cs >>= λ st'. ok st'.progress
            | in_stream s frames ↦
                receive_stream sha256 inflate r fresh_inflater st.progress st.remaining s frames
                >>= λ end. ok end.writer.progress
          ])
            ≡ ok p
          → Good p
      go (in_chunks cs) k =
          let (st', received, k') = >>=-eq-ok (receive_all sha256 uncompress r st cs) _ k in
          subst Good (ok-injective k') (
            receive_all-Verified sha256 uncompress r st st' cs
              (size_max r.chunk_size r.signatures sizes) v received)
      go (in_stream s frames) k =
          let (end, received, k') =
            >>=-eq-ok
              (receive_stream sha256 inflate r fresh_inflater st.progress st.remaining s frames) _
              k in
          subst Good (ok-injective k') (
            receive_stream-Verified sha256 inflate r sizes fresh_inflater st.progress st.remaining s
              frames end v.verified v.counted received)

  receive_file-Verified :
      (few : ℕ → Bool) (r : Request) (u : Upload) (f : File)
      → Accepted r
      → receive_file sha256 uncompress inflate fresh_inflater few r u ≡ ok f
      → Verified sha256 r.signatures r.chunk_size
          (record { matched = replicate (length r.signatures) true; output = f; matched_bytes = 0 })
  unfolding receive_file
  receive_file-Verified few r u f a h =
      let (p, received, h₁) =
        >>=-eq-ok
          (receive_body sha256 uncompress inflate fresh_inflater r
            (plan sha256 uncompress inflate fresh_inflater few r u) u.body)
          _ h in
      let (c, present, h₂) = >>=-eq-ok (or_throw u.commit connection_closed) _ h₁ in
      let (_, matching, h₃) = >>=-eq-ok (guard (matches_commit r c) missing_commit) _ h₂ in
      let (v, full) = receive_body-Verified r _ u.body p a.sizes (plan-Inv few r u a) received in
      let e : p.output ≡ f = ok-injective h₃ in
      record {
        same_length = length-replicate (length r.signatures) true;
        hashed = λ i m.
            ap
              (λ (g : File).
                sha256 (slice g (i * r.chunk_size) (get_or r.signatures i no_signature).size))
              (sym e)
            ∙ v.hashed i (ap (λ l. get_or l i false) full ∙ m);
      }

  commit_file-Ends :
      (overwrite : Bool) (few : ℕ → Bool) (r : Request) (u : Upload) (d : Disk)
      (q : Result Error File)
      → Accepted r
      → MayReplace overwrite d
      → receive_file sha256 uncompress inflate fresh_inflater few r u ≡ q
      → Ends sha256 overwrite r d
          (commit_file sha256 uncompress inflate fresh_inflater u.finish r d q).0
          (commit_file sha256 uncompress inflate fresh_inflater u.finish r d q).1
  unfolding commit_file
  commit_file-Ends overwrite few r u d (err e) a may h = keeps (λ x. cc) refl (inr refl)
  commit_file-Ends overwrite few r u d (ok f) a may h =
      elim (Bool-cases (bytes_eq (sha256 (contents f)) r.full_hash)) [
        | inl good ↦ rw good (
            put_in_place-Ends sha256 overwrite r u.finish d f (bytes_eq_sound _ _ good)
              (receive_file-Verified few r u f a h) may)
        | inr bad ↦ rw bad (keeps (send_reply-other u.finish rejected (λ x. cc)) refl (inr refl))
      ]

  -- Whatever the client sends and whatever files are searched, an upload either puts a file in place,
  -- which then has the announced hash as a whole and in each block, leaves no temporary file, and
  -- answers with a commit or fails to write that answer, and this only if the server may overwrite or
  -- there was no file; or it does not answer with a commit, the destination is as before, and either
  -- nothing has changed or no temporary file is left.
  pub handle_file-Ends :
      (overwrite : Bool) (few : ℕ → Bool) (r : Request) (u : Upload) (d : Disk)
      → Ends sha256 overwrite r d
          (handle_file sha256 uncompress inflate fresh_inflater overwrite few r u d).0
          (handle_file sha256 uncompress inflate fresh_inflater overwrite few r u d).1
  unfolding handle_file
  handle_file-Ends overwrite few r u d = go (check_manifest r) refl
    where
      go :
          (m : Result Error (Unit {0}))
          → check_manifest r ≡ m
          → Ends sha256 overwrite r d
              (handle_file sha256 uncompress inflate fresh_inflater overwrite few r u d).0
              (handle_file sha256 uncompress inflate fresh_inflater overwrite few r u d).1
      go (err e) em = rw (em, handle_file) (keeps (λ x. cc) refl (inl refl))
      go (ok u') em = elim (Bool-cases (not overwrite && is_some d.destination)) [
        | inl exists ↦
            rw (em, exists, handle_file)
              (keeps (send_reply-other u.finish target_exists (λ x. cc)) refl (inl refl))
        | inr free ↦
            rw (em, free, handle_file)
              (commit_file-Ends overwrite few r u d _ (check_manifest-Accepted r em)
                (may_replace overwrite d.destination free) refl)
      ]
