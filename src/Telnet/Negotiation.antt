-- ===== src/Telnet/Negotiation.antt =====
-- backend/src/telnet/telnet_session.cpp: how the session answers an option command.
use space_station.Prelude.{
  Bool-cases, List, [], arith, if◌then◌else◌, inl, inr, refl, sym, true, ℕ, ◌&&◌, ◌++◌, ◌==◌, ◌||◌,
  ◌↔◌, ◌∙◌, ◌∷◌, ◌≡◌, ◌⊎◌,
}
use space_station.Prelude.Bytes.{Bytes}
use space_station.Prelude.Int.{ℤ}
use space_station.Telnet.Codec.{
  dont, do_option, wont, will, binary, echo, suppress_go_ahead, terminal_type, naws, negotiation,
  window_size, iac,
}
use space_station.Telnet.Parser.{
  Parser, in_data, step_in, parse, response, replies, accepted_remote, accepted_local,
}

-- The four commands that carry an option.
pub data IsCommand : ℕ → Type 0 where
  offers : {n : ℕ} → n ≡ will → IsCommand n
  withdraws : {n : ℕ} → n ≡ wont → IsCommand n
  asks : {n : ℕ} → n ≡ do_option → IsCommand n
  forbids : {n : ℕ} → n ≡ dont → IsCommand n

-- The options that the session takes on: the peer's, and its own.
abbrev pub RemoteOption : ℕ → Type 0
RemoteOption value = (value ≡ binary) ⊎ (value ≡ echo) ⊎ (value ≡ suppress_go_ahead)

abbrev pub LocalOption : ℕ → Type 0
LocalOption value =
    (value ≡ binary) ⊎ (value ≡ suppress_go_ahead) ⊎ (value ≡ terminal_type) ⊎ (value ≡ naws)

-- The answers: to an offer DO or DONT, to a demand WILL or WONT, each by whether the option is
-- supported; to a withdrawal or a prohibition nothing but a refusal.
pub data Answers (value : ℕ) : ℕ → ℕ → Type 0 where
  agree_remote : {a r : ℕ} → a ≡ will → r ≡ do_option → RemoteOption value → Answers value a r
  refuse_remote : {a r : ℕ} → a ≡ will → r ≡ dont → ¬ RemoteOption value → Answers value a r
  accept_wont : {a r : ℕ} → a ≡ wont → r ≡ dont → Answers value a r
  agree_local : {a r : ℕ} → a ≡ do_option → r ≡ will → LocalOption value → Answers value a r
  refuse_local : {a r : ℕ} → a ≡ do_option → r ≡ wont → ¬ LocalOption value → Answers value a r
  accept_dont : {a r : ℕ} → a ≡ dont → r ≡ wont → Answers value a r

-- What follows the answer: the window size where it was asked for, and nothing otherwise.
pub data Reports (columns rows : ℤ) (value action : ℕ) : List Bytes → Type 0 where
  reports_size :
      {more : List Bytes}
      → action ≡ do_option
      → value ≡ naws
      → more ≡ window_size columns rows ∷ []
      → Reports columns rows value action more
  reports_nothing :
      {more : List Bytes}
      → ¬ ((action ≡ do_option) × (value ≡ naws))
      → more ≡ []
      → Reports columns rows value action more

accepted_remote_iff : (value : ℕ) → (accepted_remote value ≡ true) ↔ RemoteOption value
accepted_remote_iff value = (λ h. ground arith, λ h. ground arith)

accepted_local_iff : (value : ℕ) → (accepted_local value ≡ true) ↔ LocalOption value
accepted_local_iff value = (λ h. ground arith, λ h. ground arith)

offer-Answers : (value action : ℕ) → action ≡ will → Answers value action (response action value)
unfolding response
offer-Answers value action e = elim (Bool-cases (accepted_remote value)) [
  | inl t ↦ agree_remote e (ground arith) ((accepted_remote_iff value).0 t)
  | inr f ↦ refuse_remote e (ground arith) (λ o. ground (arith, (accepted_remote_iff value).1 o))
]

demand-Answers :
    (value action : ℕ) → action ≡ do_option → Answers value action (response action value)
unfolding response
demand-Answers value action e = elim (Bool-cases (accepted_local value)) [
  | inl t ↦ agree_local e (ground arith) ((accepted_local_iff value).0 t)
  | inr f ↦ refuse_local e (ground arith) (λ o. ground (arith, (accepted_local_iff value).1 o))
]

response-Answers :
    (value action : ℕ) → IsCommand action → Answers value action (response action value)
unfolding response
response-Answers value action (offers e) = offer-Answers value action e
response-Answers value action (withdraws e) = accept_wont e (ground arith)
response-Answers value action (asks e) = demand-Answers value action e
response-Answers value action (forbids e) = accept_dont e (ground arith)

module _ (columns rows : ℤ) where
  negotiation-data :
      (p : Parser) (action value : ℕ)
      → (action == will || action == wont || action == do_option || action == dont) ≡ true
      → parse columns rows (record p { parse_state = in_data }) (negotiation action value)
        ≡ record p {
          parse_state = in_data;
          negotiation_action = action;
          sent = p.sent ++ replies columns rows action value;
        }
  unfolding parse step_in negotiation
  negotiation-data p action value c = ground arith

  is_command :
      (action : ℕ)
      → IsCommand action
      → (action == will || action == wont || action == do_option || action == dont) ≡ true
  is_command action (offers e) = ground arith
  is_command action (withdraws e) = ground arith
  is_command action (asks e) = ground arith
  is_command action (forbids e) = ground arith

  -- The buffers after the answer.
  more_replies : ℕ → ℕ → List Bytes
  more_replies value action =
      if action == do_option && value == naws then window_size columns rows ∷ [] else []

  more-Reports : (value action : ℕ) → Reports columns rows value action (more_replies value action)
  unfolding more_replies
  more-Reports value action = elim (Bool-cases (action == do_option && value == naws)) [
    | inl t ↦ reports_size (ground arith) (ground arith) (rw t refl)
    | inr f ↦ reports_nothing (λ x. ground (arith, x.0, x.1)) (rw f refl)
  ]

  -- Between commands, an option command of the peer is answered by one option command of three bytes
  -- for the same option, which agrees if the session supports the option and refuses otherwise; after
  -- that the window size is sent, just where the peer asks for it, and nothing more. The output does
  -- not change, and the parser is between commands again.
  pub parse-negotiation :
      (p : Parser) (action value : ℕ)
      → p.parse_state ≡ in_data
      → IsCommand action
      → (r : ℕ) × (more : List Bytes) × Answers value action r
        × Reports columns rows value action more
        × (parse columns rows p (negotiation action value) ≡ record p {
          negotiation_action = action;
          sent = p.sent ++ (iac ∷ r ∷ value ∷ []) ∷ more;
        })
  unfolding more_replies negotiation
  parse-negotiation p action value h c = (
    response action value,
    more_replies value action,
    response-Answers value action c,
    more-Reports value action,
    (λ i. parse columns rows (record p { parse_state = h i }) (negotiation action value))
        ∙ negotiation-data p action value (is_command action c)
        ∙ (λ i. record p {
          parse_state = sym h i;
          negotiation_action = action;
          sent = p.sent ++ replies columns rows action value;
        }),
  )
