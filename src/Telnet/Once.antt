-- ===== src/Telnet/Once.antt =====
-- backend/src/telnet/telnet_session.cpp: what the automatic login may send, and how much of the
-- session's text it keeps.
use space_station.Prelude.{
  All, Bool-cases, List, Option, [], ap, ap₂, arith, false, inl, inr, length, length-drop, map,
  none, not, refl, some, true, ℕ, ◌&&◌, ◌++◌, ◌+◌, ◌-◌, ◌∙◌, ◌∷◌, ◌≡◌, ◌≤◌,
}
use space_station.Telnet.Codec.{lower, escape_iac}
use space_station.Prelude.Bytes.{Bytes}
use space_station.Telnet.Login.{
  Credential, username, password, Login, start_login, prompt_limit, append_prompt, prompted, wipe,
  answer, login, asked, login_all, note, sent_all, asks_username, asks_password,
}

-- The bytes of options.password are zeroed when they were sent.
pub record Inv (s : Login) : Type 0 where
  pub buffer_bounded : length s.prompt_buffer ≤ prompt_limit
  pub wiped : s.password_sent ≡ true → All (λ c. c ≡ 0) s.secret

All-wipe : (xs : Bytes) → All (λ c. c ≡ 0) (wipe xs)
unfolding wipe
All-wipe [] = tt
All-wipe (x ∷ xs) = (refl, All-wipe xs)

append_prompt_bounded : (b o : Bytes) → length (append_prompt b o) ≤ prompt_limit
unfolding append_prompt
append_prompt_bounded b o =
    let grown = b ++ lower o in ground (arith, length-drop (length grown - prompt_limit) grown)

start_login-Inv : (u p : Bytes) → Inv (start_login u p)
start_login-Inv u [] = record { buffer_bounded = omega arith; wiped = λ _. tt }
start_login-Inv u (c ∷ p) = record { buffer_bounded = omega arith; wiped = λ e. cc }

answer-Inv :
    (s : Login) (b : Bytes) (c : Option Credential)
    → length b ≤ prompt_limit
    → Inv s
    → Inv (answer s b c).0
unfolding answer
answer-Inv s b none h v = record { buffer_bounded = h; wiped = v.wiped }
answer-Inv s b (some username) h v = record { buffer_bounded = omega arith; wiped = v.wiped }
answer-Inv s b (some password) h v = record {
  buffer_bounded = omega arith;
  wiped = λ _. All-wipe s.secret;
}

login-Inv : (s : Login) (o : Bytes) → Inv s → Inv (login s o).0
unfolding login
login-Inv s o v = answer-Inv s _ _ (append_prompt_bounded s.prompt_buffer o) v

login_all-Inv : (s : Login) (os : List Bytes) → Inv s → Inv (login_all s os)
unfolding login_all
login_all-Inv s [] v = v
login_all-Inv s (o ∷ os) v = login_all-Inv (login s o).0 os (login-Inv s o v)

-- Whatever the host prints, the prompt buffer stays within 2048 bytes, and once the password was
-- sent (or if there is none) every byte of the option's own password string is zero. What the host
-- prints is kept in the prompt buffer, an echo of the password too.
pub login_all-start : (u p : Bytes) (os : List Bytes) → Inv (login_all (start_login u p) os)
login_all-start u p os = login_all-Inv (start_login u p) os (start_login-Inv u p)

-- How often a credential may still be sent.
abbrev pub owed : Login → Credential → ℕ
owed s username = elim s.username_sent [ true ↦ 0 | false ↦ 1 ]
owed s password = elim s.password_sent [ true ↦ 0 | false ↦ 1 ]

abbrev pub times : Credential → List Credential → ℕ
times c [] = 0
times username (username ∷ l) = times username l + 1
times password (password ∷ l) = times password l + 1
times username (password ∷ l) = times username l
times password (username ∷ l) = times password l

times-note :
    (c : Credential) (q : Option Credential) (l : List Credential)
    → times c (note q l) ≡ times c (note q []) + times c l
times-note username none l = omega arith
times-note password none l = omega arith
times-note username (some username) l = omega arith
times-note username (some password) l = omega arith
times-note password (some username) l = omega arith
times-note password (some password) l = omega arith

times-prompted :
    (c : Credential) (s : Login) (b : Bytes)
    → times c (note (prompted s b) []) + owed (answer s b (prompted s b)).0 c ≡ owed s c
unfolding prompted answer
times-prompted username s b = ground arith
times-prompted password s b = ground arith

-- Each credential is sent exactly as often as it stops being owed, over any outputs of the host.
times-asked :
    (c : Credential) (s : Login) (os : List Bytes)
    → times c (asked s os) + owed (login_all s os) c ≡ owed s c
unfolding asked login_all login
times-asked c s [] = omega arith
times-asked c s (o ∷ os) =
    let b = append_prompt s.prompt_buffer o in
    omega (
      arith,
      times-note c (prompted s b) (asked (login s o).0 os),
      times-asked c (login s o).0 os,
      times-prompted c s b,
    )

owed-le : (c : Credential) (s : Login) → owed s c ≤ 1
owed-le username s = ground arith
owed-le password s = ground arith

-- The buffer that carries a credential.
abbrev pub message_of : Bytes → Bytes → Credential → Bytes
message_of u p username = escape_iac (u ++ 13 ∷ 10 ∷ [])
message_of u p password = escape_iac (p ++ 13 ∷ 10 ∷ [])

-- The options, until they are used.
record Holds (u p : Bytes) (s : Login) : Type 0 where
  same_user : s.user ≡ u
  same_secret : s.password_sent ≡ false → s.secret ≡ p

answer-message :
    (u p : Bytes) (s : Login) (b : Bytes)
    → Holds u p s
    → ((answer s b (prompted s b)).1 ≡ map (message_of u p) (note (prompted s b) []))
      × Holds u p (answer s b (prompted s b)).0
unfolding answer prompted
answer-message u p s b h = elim (Bool-cases (not s.username_sent && asks_username b)) [
  | inl user_asked ↦ rw user_asked (
    ap (λ x. escape_iac (x ++ 13 ∷ 10 ∷ []) ∷ []) h.same_user,
    record { same_user = h.same_user; same_secret = h.same_secret },
  )
  | inr other ↦ elim (Bool-cases (not s.password_sent && asks_password b)) [
    | inl password_asked ↦
        rw (other, password_asked)
          (
            ap (λ x. escape_iac (x ++ 13 ∷ 10 ∷ []) ∷ []) (h.same_secret (ground arith)),
            record { same_user = h.same_user; same_secret = λ e. cc },
          )
    | inr nothing ↦
        rw (other, nothing) (refl, record { same_user = h.same_user; same_secret = h.same_secret })
  ]
]

sent_all-asked :
    (u p : Bytes) (s : Login) (os : List Bytes)
    → Holds u p s
    → sent_all s os ≡ map (message_of u p) (asked s os)
unfolding sent_all asked login
sent_all-asked u p s [] h = refl
sent_all-asked u p s (o ∷ os) h =
    let b = append_prompt s.prompt_buffer o in
    let (now, later) = answer-message u p s b h in
    ap₂ (λ xs ys. xs ++ ys) now (sent_all-asked u p (login s o).0 os later)
    ∙ joined_note u p (prompted s b) (asked (login s o).0 os)
  where
    joined_note :
        (u p : Bytes) (q : Option Credential) (l : List Credential)
        → map (message_of u p) (note q []) ++ map (message_of u p) l
          ≡ map (message_of u p) (note q l)
    joined_note u p none l = refl
    joined_note u p (some c) l = refl

-- Over any outputs of the host, the buffers that the login sends are the messages of some credentials,
-- the name or the password of the options with the end of the line, in which each stands at most once,
-- and one that the options leave empty does not stand.
pub asked_once :
    (u p : Bytes) (os : List Bytes)
    → (cs : List Credential) × (sent_all (start_login u p) os ≡ map (message_of u p) cs)
      × ((c : Credential) → times c cs ≤ 1)
      × (u ≡ [] → times username cs ≡ 0)
      × (p ≡ [] → times password cs ≡ 0)
asked_once u p os = (
  asked (start_login u p) os,
  sent_all-asked u p (start_login u p) os (record { same_user = refl; same_secret = λ e. refl }),
  (λ c. omega (arith, times-asked c (start_login u p) os, owed-le c (start_login u p))),
  (λ e. rw e (omega (arith, times-asked username (start_login [] p) os))),
  (λ e. rw e (omega (arith, times-asked password (start_login u []) os))),
)
