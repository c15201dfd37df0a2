-- ===== src/Transfer/Client/Announced.antt =====
-- backend/src/transfer/transfer.cpp: the announcement of the client passes the server's tests.
use native.Mathlib.Nat.{div-eq_of_lt, add-div_right}
use space_station.Prelude.{
  ==_iff, ==_refl, All, Bool, Bool-cases, List, [], all_of, ap, arith, drop, false, get_or, inl,
  inr, leb, leb→le, length, length-drop, length-take, ltb, ok, refl, suc, sym, take, true, zero, ℕ,
  ◌&&◌, ◌*◌, ◌+◌, ◌-◌, ◌/◌, ◌<◌, ◌==◌, ◌↔◌, ◌∙◌, ◌∷◌, ◌≡◌, ◌≤◌,
}
use space_station.Transfer.Client.{
  announce, build_loop, no_signature, signature_of, Signature, validate_client_config, start_file,
  ClientConfig, build_signatures, max_file_size,
}
use space_station.Prelude.Bytes.{Bytes}
use space_station.Transfer.Manifest.{
  Request, send_json, receive_json, expected_chunks, check_manifest, is_valid_signature,
  safe_file_name, is_safe_identifier, max_chunk_count,
}

drop-sum : {A : Type 0} (a b : ℕ) (xs : List A) → drop (a + b) xs ≡ drop b (drop a xs)
drop-sum zero b xs = let e : 0 + b ≡ b = omega arith in ap (λ n. drop n xs) e
drop-sum {A = A} (suc a) b [] =
    let e : suc a + b ≡ suc (a + b) = omega arith in ap (λ n. drop n []) e ∙ sym (none_left b)
  where
    none_left : (n : ℕ) → drop {A = A} n (drop (suc a) []) ≡ []
    none_left zero = refl
    none_left (suc n) = refl
drop-sum (suc a) b (x ∷ xs) =
    let e : suc a + b ≡ suc (a + b) = omega arith in ap (λ n. drop n (x ∷ xs)) e ∙ drop-sum a b xs

positive_of : (n : ℕ) → n == 0 ≡ false → 0 < n
positive_of n h = ground arith

nonzero : (n : ℕ) → 0 < n → n == 0 ≡ false
nonzero n h = ground arith

expected_chunks-next :
    (n c : ℕ) → 0 < c → 0 < n → expected_chunks n c ≡ suc (expected_chunks (n - c) c)
unfolding expected_chunks
expected_chunks-next n c h k = elim (Bool-cases (leb n c)) [
  | inl small ↦
      let e : n - c ≡ 0 = omega (arith, leb→le n c small) in
      let q : (n - 1) / c ≡ 0 = div-eq_of_lt (omega (arith, leb→le n c small, k)) in
      rw (e, nonzero n k, q) (omega arith)
  | inr large ↦
      let more : c < n = over n c large in
      let e : n - 1 ≡ n - c - 1 + c = omega (arith, more, h) in
      let q : (n - 1) / c ≡ (n - c - 1) / c + 1 = ap (λ m. m / c) e ∙ add-div_right (n - c - 1) h in
      rw (nonzero n k, nonzero (n - c) (omega (arith, more)), q) (omega arith)
]
  where
    over : (n c : ℕ) → leb n c ≡ false → c < n
    over n c h = ground arith

module _ (sha256 : Bytes → Bytes) (chunk_size : ℕ) (positive : 0 < chunk_size) where
  -- The signatures are as many as the server expects.
  build_loop-length :
      (fuel : ℕ) (content : Bytes)
      → length content ≤ fuel
      → length (build_loop sha256 fuel chunk_size content)
        ≡ expected_chunks (length content) chunk_size
  unfolding build_loop
  build_loop-length zero content enough =
      let e : length content ≡ 0 = omega (arith, enough) in
      sym (ap (λ n. expected_chunks n chunk_size) e ∙ unfold expected_chunks in refl)
  build_loop-length (suc fuel) content enough =
      elim (Bool-cases (length (take chunk_size content) == 0)) [
        | inl none_left ↦
            let e : length content ≡ 0 =
              omega (arith, length-take chunk_size content, (==_iff _ _).0 none_left, positive) in
            rw none_left
              (sym (ap (λ n. expected_chunks n chunk_size) e ∙ unfold expected_chunks in refl))
        | inr some_left ↦
            let pos : 0 < length content = at_least some_left in
            rw some_left (
              ap suc (
                build_loop-length fuel (drop chunk_size content)
                  (omega (arith, length-drop chunk_size content, enough, positive))
                ∙ ap (λ n. expected_chunks n chunk_size) (length-drop chunk_size content))
              ∙ sym (expected_chunks-next (length content) chunk_size positive pos))
      ]
    where
      at_least : length (take chunk_size content) == 0 ≡ false → 0 < length content
      at_least h =
          omega (
            arith,
            length-take chunk_size content,
            positive_of (length (take chunk_size content)) h,
          )

  -- The signature of a block.
  pub build_loop-block :
      (fuel : ℕ) (content : Bytes) (i : ℕ)
      → i < length (build_loop sha256 fuel chunk_size content)
      → (get_or (build_loop sha256 fuel chunk_size content) i no_signature
          ≡ signature_of sha256 (take chunk_size (drop (i * chunk_size) content)))
        × (0 < length (take chunk_size (drop (i * chunk_size) content)))
  unfolding build_loop
  build_loop-block zero content i below = absurd (omega (arith, below))
  build_loop-block (suc fuel) content i below =
      elim (Bool-cases (length (take chunk_size content) == 0)) [
        | inl none_left ↦ let k : i < 0 = rw none_left at below in absurd (omega (arith, k))
        | inr some_left ↦
            let k : i
                < length (
                    signature_of sha256 (take chunk_size content)
                    ∷ build_loop sha256 fuel chunk_size (drop chunk_size content)) =
              rw some_left at below in
            rw some_left (
              go (positive_of (length (take chunk_size content)) some_left)
                (build_loop-block fuel (drop chunk_size content)) i k)
      ]
    where
      Stands : List Signature → Bytes → ℕ → Type 0
      Stands ss bytes i =
          (get_or ss i no_signature
            ≡ signature_of sha256 (take chunk_size (drop (i * chunk_size) bytes)))
          × (0 < length (take chunk_size (drop (i * chunk_size) bytes)))

      go :
          0 < length (take chunk_size content)
          → ((i : ℕ)
              → i < length (build_loop sha256 fuel chunk_size (drop chunk_size content))
              → Stands
                  (build_loop sha256 fuel chunk_size (drop chunk_size content))
                  (drop chunk_size content)
                  i)
          → (i : ℕ) → i < suc (length (build_loop sha256 fuel chunk_size (drop chunk_size content)))
          → Stands
              (signature_of sha256 (take chunk_size content)
                ∷ build_loop sha256 fuel chunk_size (drop chunk_size content))
              content
              i
      go pos ih zero k = let e : 0 * chunk_size ≡ 0 = omega arith in rw e (refl, pos)
      go pos ih (suc i) k =
          let e : suc i * chunk_size ≡ chunk_size + i * chunk_size = grind arith in
          rw (e, drop-sum chunk_size (i * chunk_size) content) (ih i (omega (arith, k)))

  build_loop-valid :
      ((xs : Bytes) → length (sha256 xs) ≡ 64)
      → (fuel : ℕ) (content : Bytes)
      → all_of (is_valid_signature chunk_size) (build_loop sha256 fuel chunk_size content) ≡ true
  unfolding build_loop is_valid_signature
  build_loop-valid hash zero content = refl
  build_loop-valid hash (suc fuel) content =
      elim (Bool-cases (length (take chunk_size content) == 0)) [
        | inl none_left ↦ rw none_left refl
        | inr some_left ↦
            let fits : ltb chunk_size (length (take chunk_size content)) ≡ false =
              within (length (take chunk_size content))
                (omega (arith, length-take chunk_size content)) in
            rw some_left (
              first (take chunk_size content) some_left fits
                (build_loop-valid hash fuel (drop chunk_size content)))
      ]
    where
      first :
          (b : Bytes)
          → length b == 0 ≡ false
          → ltb chunk_size (length b) ≡ false
          → {rest : Bool} → rest ≡ true
          → (is_valid_signature chunk_size (signature_of sha256 b) && rest) ≡ true
      first b some_left fits k = rw (hash b, some_left, fits) k

      within : (n : ℕ) → n ≤ chunk_size → ltb chunk_size n ≡ false
      within n h = ground arith

pub sizes_max :
    (sha256 : Bytes → Bytes) (chunk_size fuel : ℕ) (content : Bytes)
    → All (λ (s : Signature). s.size ≤ chunk_size) (build_loop sha256 fuel chunk_size content)
unfolding build_loop
sizes_max sha256 chunk_size zero content = tt
sizes_max sha256 chunk_size (suc fuel) content =
    elim (Bool-cases (length (take chunk_size content) == 0)) [
      | inl none_left ↦ rw none_left tt
      | inr some_left ↦ rw some_left (
        omega (arith, length-take chunk_size content),
        sizes_max sha256 chunk_size fuel (drop chunk_size content),
      )
    ]

config-chunk_size :
    (c : ClientConfig)
    → validate_client_config c ≡ ok tt
    → (64 * 1024 ≤ c.chunk_size) × (c.chunk_size ≤ 16 * 1024 * 1024)
unfolding validate_client_config
config-chunk_size c h = ground arith

start_file-fits :
    (sha256 : Bytes → Bytes) (c : ClientConfig) (session_id file_id name content : Bytes)
    → ((xs : Bytes) → length (sha256 xs) ≡ 64)
    → validate_client_config c ≡ ok tt
    → safe_file_name name ≡ ok name
    → is_safe_identifier session_id ≡ true
    → is_safe_identifier file_id ≡ true
    → length content ≤ max_file_size
    → expected_chunks (length content) c.chunk_size ≤ max_chunk_count
    → check_manifest (start_file sha256 c.chunk_size session_id file_id name content) ≡ ok tt
unfolding check_manifest start_file build_signatures
start_file-fits sha256 c session_id file_id name content hash valid safe session file size count =
    let (low, high) = config-chunk_size c valid in
    let positive : 0 < c.chunk_size = omega (arith, low) in
    let signatures = build_loop sha256 (length content) c.chunk_size content in
    let long =
      build_loop-length sha256 c.chunk_size positive (length content) content (omega arith) in
    rw
      (
        safe,
        session,
        file,
        below _ _ low,
        below _ _ high,
        hash content,
        below _ _ size,
        below _ _ count,
        long,
        ==_refl (expected_chunks (length content) c.chunk_size),
        build_loop-valid sha256 c.chunk_size positive hash (length content) content,
      )
      refl
  where
    below : (a b : ℕ) → a ≤ b → ltb b a ≡ false
    below a b h = ground arith

announce-ok :
    (dump_size : Request → ℕ) (r : Request)
    → check_manifest r ≡ ok tt
    → (announce dump_size r ≡ ok tt) ↔ ((0 < dump_size r) × (dump_size r ≤ 64 * 1024 * 1024))
unfolding announce send_json receive_json
announce-ok dump_size r h = (λ e. ground arith, λ fits. ground (arith, fits.0, fits.1, h))

-- What a client announces passes the server's tests just if its JSON text is not empty and has at most
-- 64 MiB: for a configuration that the client accepts, a name and identifiers that are safe, and a file
-- of at most the greatest size and number of blocks, if a hash has 64 characters and the connection
-- lasts.
pub start_file-accepted :
    (dump_size : Request → ℕ) (sha256 : Bytes → Bytes) (c : ClientConfig)
    (session_id file_id name content : Bytes)
    → ((xs : Bytes) → length (sha256 xs) ≡ 64)
    → validate_client_config c ≡ ok tt
    → safe_file_name name ≡ ok name
    → is_safe_identifier session_id ≡ true
    → is_safe_identifier file_id ≡ true
    → length content ≤ max_file_size
    → expected_chunks (length content) c.chunk_size ≤ max_chunk_count
    → (announce dump_size (start_file sha256 c.chunk_size session_id file_id name content) ≡ ok tt)
      ↔ ((0 < dump_size (start_file sha256 c.chunk_size session_id file_id name content))
          × (dump_size (start_file sha256 c.chunk_size session_id file_id name content)
              ≤ 64 * 1024 * 1024))
start_file-accepted dump_size sha256 c session_id file_id name content hash valid safe session file
      size count =
    announce-ok dump_size (start_file sha256 c.chunk_size session_id file_id name content) (
      start_file-fits sha256 c session_id file_id name content hash valid safe session file size
        count)
