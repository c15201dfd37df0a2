-- ===== src/Transfer/Scan/Windows.antt =====
-- backend/src/transfer/transfer.cpp, ScanCandidate: the scan looks at every window of the file.
use native.Mathlib.Nat.{mod-eq_of_lt}
use mathlib.Core.Path.{subst}
use space_station.Prelude.{
  All, Bool-cases, List, [], ap, arith, drop, get_or, if◌then◌else◌, inl, inr, length,
  length-append, ltb, suc, sym, take, true, ℕ, ◌%◌, ◌++◌, ◌+◌, ◌<◌, ◌==◌, ◌∙◌, ◌∷◌, ◌≡◌, All-split,
  take-append-drop, All-append, length-take, ltb→le,
}
use space_station.Transfer.Checksum.Rolling.{roll-weak_checksum}
use mathlib.Core.List.{append-nil, append_assoc}
use space_station.Transfer.Scan.Ring.{order-rotate, get_or-append_right, set-append}
use space_station.Transfer.Checksum.{weak_checksum, roll}
use space_station.Transfer.Scan.{Signature, Progress, scan_loop, visit, scan_size}
use space_station.Prelude.Bytes.{Bytes}

wrap_start : (a n : ℕ) → n ≡ a + 1 → (a + 1) % n ≡ 0
wrap_start a n e = grind arith

next_start : (a b n : ℕ) → n ≡ a + suc (suc b) → (a + 1) % n ≡ a + 1
next_start a b n e = mod-eq_of_lt (omega arith)

module _ (sha256 : Bytes → Bytes) (signatures : List Signature) (chunk_size : ℕ)
    (table : ℕ → List ℕ) where
  -- The reference: each window in turn, cut out of the file, with a checksum of its own.
  pub scan_windows : Bytes → Bytes → Progress → Progress
  scan_windows window [] p =
      visit sha256 signatures chunk_size table (weak_checksum window) window p
  scan_windows window (next ∷ rest) p =
      scan_windows (drop 1 window ++ next ∷ []) rest
        (visit sha256 signatures chunk_size table (weak_checksum window) window p)

  -- One turn of the loop, for a ring that is cut before the byte `old`.
  turn :
      (pre : Bytes) (old : ℕ) (post : Bytes) (next : ℕ) (rest : Bytes) (p : Progress)
      → old < 256
      → next < 256
      → scan_loop sha256 signatures chunk_size table
          (pre ++ old ∷ post)
          (length pre)
          (weak_checksum (old ∷ (post ++ pre)))
          (next ∷ rest)
          p
        ≡ scan_loop sha256 signatures chunk_size table
            (pre ++ next ∷ post)
            ((length pre + 1) % length (pre ++ old ∷ post))
            (weak_checksum ((post ++ pre) ++ next ∷ []))
            rest
            (visit sha256 signatures chunk_size table
              (weak_checksum (old ∷ (post ++ pre)))
              (old ∷ (post ++ pre))
              p)
  unfolding scan_loop
  turn pre old post next rest p ho hn = λ i.
      scan_loop sha256 signatures chunk_size table (set-append pre old next post i)
        ((length pre + 1) % length (pre ++ old ∷ post)) (weak i) rest
        (visit sha256 signatures chunk_size table (weak_checksum (old ∷ (post ++ pre)))
          (order-rotate pre (old ∷ post) i) p)
    where
      same_length : length (pre ++ old ∷ post) ≡ length (old ∷ (post ++ pre))
      same_length = omega (arith, length-append pre (old ∷ post), length-append post pre)

      head : get_or (pre ++ old ∷ post) (length pre) 0 ≡ old
      head =
          let e : length pre ≡ length pre + 0 = omega arith in
          ap (λ j. get_or (pre ++ old ∷ post) j 0) e ∙ get_or-append_right pre (old ∷ post) 0

      weak :
          roll
            (length (pre ++ old ∷ post))
            (weak_checksum (old ∷ (post ++ pre)))
            (get_or (pre ++ old ∷ post) (length pre) 0)
            next
          ≡ weak_checksum ((post ++ pre) ++ next ∷ [])
      weak =
          (λ i. roll (same_length i) (weak_checksum (old ∷ (post ++ pre))) (head i) next)
          ∙ roll-weak_checksum old next (post ++ pre) ho hn

  scan_loop-windows :
      (rest : Bytes) (pre post : Bytes) (p : Progress)
      → 0 < length post
      → All (λ b. b < 256) post
      → All (λ b. b < 256) rest
      → All (λ b. b < 256) pre
      → scan_loop sha256 signatures chunk_size table
          (pre ++ post)
          (length pre)
          (weak_checksum (post ++ pre))
          rest
          p
        ≡ scan_windows (post ++ pre) rest p
  unfolding scan_windows
  scan_loop-windows [] pre post p h hw hr hp =
      unfold scan_loop in
      ap (λ o. visit sha256 signatures chunk_size table (weak_checksum (post ++ pre)) o p)
        (order-rotate pre post)
  scan_loop-windows (next ∷ rest) pre [] p h hw hr hp = absurd (omega arith)
  scan_loop-windows (next ∷ rest) pre (old ∷ []) p h hw hr hp =
      let q = visit sha256 signatures chunk_size table (weak_checksum (old ∷ pre)) (old ∷ pre) p in
      let start : (length pre + 1) % length (pre ++ old ∷ []) ≡ 0 =
        wrap_start (length pre) _ (length-append pre (old ∷ [])) in
      turn pre old [] next rest p hw.0 hr.0
      ∙ (λ i.
          scan_loop sha256 signatures chunk_size table (pre ++ next ∷ []) (start i)
            (weak_checksum (sym (append-nil (pre ++ next ∷ [])) i)) rest q)
      ∙ scan_loop-windows rest [] (pre ++ next ∷ []) q
          (omega (arith, length-append pre (next ∷ [])))
          (All-append _ pre (next ∷ []) hp (hr.0, tt)) hr.1 tt
      ∙ ap (λ w. scan_windows w rest q) (append-nil (pre ++ next ∷ []))
  scan_loop-windows (next ∷ rest) pre (old ∷ x ∷ post) p h hw hr hp =
      let window = (x ∷ post) ++ pre in
      let q =
        visit sha256 signatures chunk_size table (weak_checksum (old ∷ window)) (old ∷ window) p in
      let start : (length pre + 1) % length (pre ++ old ∷ x ∷ post) ≡ length (pre ++ next ∷ []) =
        next_start (length pre) (length post) _ (length-append pre (old ∷ x ∷ post))
        ∙ sym (length-append pre (next ∷ [])) in
      turn pre old (x ∷ post) next rest p hw.0 hr.0
      ∙ (λ i.
          scan_loop sha256 signatures chunk_size table
            (sym (append_assoc pre (next ∷ []) (x ∷ post)) i) (start i)
            (weak_checksum (append_assoc (x ∷ post) pre (next ∷ []) i)) rest q)
      ∙ scan_loop-windows rest (pre ++ next ∷ []) (x ∷ post) q (omega arith) hw.1 hr.1
          (All-append _ pre (next ∷ []) hp (hr.0, tt))
      ∙ ap (λ w. scan_windows w rest q) (sym (append_assoc (x ∷ post) pre (next ∷ [])))

  -- For a window size above 0 and a file of bytes, one round of ScanCandidate visits exactly the
  -- windows of that size, in the file's order and each with the checksum of its own bytes; a file
  -- that is shorter than one window changes nothing.
  pub scan_size-windows :
      (window_size : ℕ) (input : Bytes) (p : Progress)
      → 0 < window_size
      → All (λ b. b < 256) input
      → scan_size sha256 signatures chunk_size table window_size input p ≡ (
          if ltb (length input) window_size
          then p
          else scan_windows (take window_size input) (drop window_size input) p)
  unfolding scan_size
  scan_size-windows n input p h hb =
      let window = take n input in
      let bytes =
        All-split _ window (drop n input)
          (subst (All (λ b. b < 256)) (sym (take-append-drop n input)) hb) in
      elim (Bool-cases (ltb (length input) n)) [
        | inl short ↦ ground (arith, length-take n input)
        | inr long ↦
            let full : (length window == n) ≡ true = ground (arith, length-take n input) in
            rw (long, full)
              (ap
                  (λ w.
                    scan_loop sha256 signatures chunk_size table window 0 (weak_checksum w)
                      (drop n input) p)
                  (sym (append-nil window))
                ∙ scan_loop-windows (drop n input) [] window p
                    (omega (arith, length-take n input, ltb→le (length input) n long)) bytes.0
                    bytes.1 tt
                ∙ ap (λ w. scan_windows w (drop n input) p) (append-nil window))
      ]
