-- ===== src/Telnet/Delivery.antt =====
-- backend/src/telnet/telnet_session.cpp, TelnetSession::Run: what reaches the browser does not
-- depend on how the network cuts the host's bytes into reads.
use space_station.Prelude.{
  All, Bool, List, [], all_of, ap, arith, false, refl, sym, true, ℕ, ◌++◌, ◌∙◌, ◌∷◌, ◌≡◌, ◌≢◌,
}
use space_station.Telnet.Login.{Login}
use space_station.Telnet.RoundTrip.{parse-append}
use space_station.Telnet.Session.{
  Round, Received, closed, failed, Session, content, flush, receive, run, turn, read, Command,
  goes_on, push_sent, nothing, deliver, command_bytes,
}
use mathlib.Core.List.{append-nil, append_assoc}
use space_station.Prelude.Bytes.{Bytes}
use space_station.Prelude.Int.{ℤ}
use space_station.Telnet.Parser.{
  Parser, parse, step_in, ParseState, step, in_data, in_iac, in_option, in_sub, in_sub_iac,
}

-- The parser reads neither its output nor its sent buffers.
abbrev pub bare : Parser → Parser
bare p = record p { output = []; sent = [] }

abbrev onto : Parser → Parser → Parser
onto p q = record q { output = p.output ++ q.output; sent = p.sent ++ q.sent }

step-onto :
    (s : ParseState) (columns rows : ℤ) (p : Parser) (x : ℕ)
    → step_in s columns rows p x ≡ onto p (step_in s columns rows (bare p) x)
unfolding step_in
step-onto in_data columns rows p x = ground (arith, append-nil p.output, append-nil p.sent)
step-onto in_iac columns rows p x = ground (arith, append-nil p.output, append-nil p.sent)
step-onto in_option columns rows p x = ground (arith, append-nil p.output, append-nil p.sent)
step-onto in_sub columns rows p x = ground (arith, append-nil p.output, append-nil p.sent)
step-onto in_sub_iac columns rows p x = ground (arith, append-nil p.output, append-nil p.sent)

onto_assoc : (p q r : Parser) → onto (onto p q) r ≡ onto p (onto q r)
onto_assoc p q r =
    ground (arith, append_assoc p.output q.output r.output, append_assoc p.sent q.sent r.sent)

pub parse-onto :
    (columns rows : ℤ) (p : Parser) (xs : Bytes)
    → parse columns rows p xs ≡ onto p (parse columns rows (bare p) xs)
unfolding parse
parse-onto columns rows p [] = ground (arith, append-nil p.output, append-nil p.sent)
parse-onto columns rows p (x ∷ xs) =
    let r = step columns rows (bare p) x in
    ap (λ q. parse columns rows q xs) (step-onto p.parse_state columns rows p x)
    ∙ parse-onto columns rows (onto p r) xs
    ∙ onto_assoc p r (parse columns rows (bare r) xs)
    ∙ ap (onto p) (sym (parse-onto columns rows r xs))

-- The bytes that the rounds read.
abbrev pub input_of : Received → Bytes
input_of (content xs) = xs
input_of _ = []

abbrev pub inputs : List Round → Bytes
inputs [] = []
inputs (r ∷ rs) = input_of r.received ++ inputs rs

-- Every turn goes on and the browser listens.
abbrev pub Undisturbed : List Round → Type 0
Undisturbed rs =
    All
      (λ (r : Round).
        (all_of (λ c. c.1) r.commands ≡ true)
        × (r.listening ≡ true)
        × (r.received ≢ closed)
        × (r.received ≢ failed))
      rs

abbrev pub joined : List Bytes → Bytes
joined [] = []
joined (b ∷ bs) = b ++ joined bs

joined-append : (xs ys : List Bytes) → joined (xs ++ ys) ≡ joined xs ++ joined ys
joined-append [] ys = refl
joined-append (x ∷ xs) ys = rw (joined-append xs ys, append_assoc) refl

-- `t` is `s` after the parser has read `xs`, and the browser has got what the parser put out.
record Follows (s : Session) (xs : Bytes) (t : Session) : Type 0 where
  columns_kept : t.columns ≡ s.columns
  rows_kept : t.rows ≡ s.rows
  parsed : bare t.parser ≡ bare (parse s.columns s.rows (bare s.parser) xs)
  got :
      joined t.delivered ≡ joined s.delivered ++ (parse s.columns s.rows (bare s.parser) xs).output

-- A step that leaves the parser's state and the browser alone.
Follows-quiet :
    (s : Session) (p : Parser) (l : Login)
    → bare p ≡ bare s.parser
    → Follows s [] (record s { parser = p; login_state = l })
unfolding parse
Follows-quiet s p l h = record {
  columns_kept = refl;
  rows_kept = refl;
  parsed = h;
  got = sym (append-nil (joined s.delivered));
}

parse-two :
    (columns rows : ℤ) (p : Parser) (xs ys : Bytes)
    → parse columns rows p (xs ++ ys)
      ≡ onto (parse columns rows p xs) (parse columns rows (bare (parse columns rows p xs)) ys)
parse-two columns rows p xs ys =
    parse-append columns rows p xs ys ∙ parse-onto columns rows (parse columns rows p xs) ys

Follows-trans :
    (s t u : Session) (xs ys : Bytes) → Follows s xs t → Follows t ys u → Follows s (xs ++ ys) u
Follows-trans s t u xs ys f g = record {
  columns_kept = g.columns_kept ∙ f.columns_kept;
  rows_kept = g.rows_kept ∙ f.rows_kept;
  parsed =
      g.parsed
      ∙ ap bare step_two
      ∙ ap bare (sym (parse-two s.columns s.rows (bare s.parser) xs ys));
  got =
      g.got
      ∙ ap (λ (q : Parser). joined t.delivered ++ q.output) step_two
      ∙ ap (λ o. o ++ (parse s.columns s.rows (bare middle) ys).output) f.got
      ∙ append_assoc (joined s.delivered) middle.output
          (parse s.columns s.rows (bare middle) ys).output
      ∙ ap (λ (q : Parser). joined s.delivered ++ q.output)
          (sym (parse-two s.columns s.rows (bare s.parser) xs ys));
}
  where
    middle : Parser
    middle = parse s.columns s.rows (bare s.parser) xs

    step_two : parse t.columns t.rows (bare t.parser) ys ≡ parse s.columns s.rows (bare middle) ys
    step_two = λ i. parse (f.columns_kept i) (f.rows_kept i) (f.parsed i) ys

flush-Follows :
    (s : Session) (cs : List (Command × Bool))
    → all_of (λ c. c.1) cs ≡ true
    → Follows s [] (flush s cs).0 × ((flush s cs).1 ≡ true)
unfolding flush
flush-Follows s [] h = (Follows-quiet s s.parser s.login_state refl, refl)
flush-Follows s ((c, true) ∷ cs) h =
    let p = push_sent s.parser (command_bytes c ∷ []) in
    let (f, e) = flush-Follows (record s { parser = p }) cs h in
    (Follows-trans s (record s { parser = p }) _ [] [] (Follows-quiet s p s.login_state refl) f, e)
flush-Follows s ((c, false) ∷ cs) h = cc

deliver-got :
    (s : Session) (p : Parser)
    → joined (deliver s true p).delivered ≡ joined s.delivered ++ p.output
unfolding deliver
deliver-got s p = ground (
  arith,
  joined-append s.delivered (p.output ∷ []),
  append-nil p.output,
  append-nil (joined s.delivered),
)

deliver-bare :
    (s : Session) (p : Parser)
    → (bare (deliver s true p).parser ≡ bare p)
      × ((deliver s true p).columns ≡ s.columns)
      × ((deliver s true p).rows ≡ s.rows)
unfolding deliver
deliver-bare s p = ground arith

receive-Follows : (s : Session) (xs : Bytes) → Follows s xs (receive s true xs)
unfolding receive
receive-Follows s xs =
    let p = parse s.columns s.rows (record s.parser { output = [] }) xs in
    let e = parse-onto s.columns s.rows (record s.parser { output = [] }) xs in
    record {
      columns_kept = (deliver-bare s p).1;
      rows_kept = (deliver-bare s p).2;
      parsed = (deliver-bare s p).0 ∙ ap bare e;
      got = deliver-got s p ∙ ap (λ (q : Parser). joined s.delivered ++ q.output) e;
    }

read-Follows :
    (s : Session) (r : Received)
    → r ≢ closed
    → r ≢ failed
    → (t : Session) × (read s true r ≡ goes_on t) × Follows s (input_of r) t
unfolding read
read-Follows s nothing c f = (s, refl, Follows-quiet s s.parser s.login_state refl)
read-Follows s closed c f = absurd (c refl)
read-Follows s failed c f = absurd (f refl)
read-Follows s (content xs) c f = (receive s true xs, refl, receive-Follows s xs)

turn-Follows :
    (s : Session) (r : Round)
    → Undisturbed (r ∷ [])
    → (t : Session) × (turn s r ≡ goes_on t) × Follows s (input_of r.received) t
unfolding turn
turn-Follows s r h =
    let (f, e) = flush-Follows s r.commands h.0.0 in
    let (t, e', g) = read-Follows (flush s r.commands).0 r.received h.0.2 h.0.3 in
    (t, rw (e, h.0.1) e', Follows-trans s (flush s r.commands).0 t [] (input_of r.received) f g)

follow : (s : Session) (rs : List Round) → Undisturbed rs → Follows s (inputs rs) (run s rs).0
unfolding run
follow s [] h = Follows-quiet s s.parser _ refl
follow s (r ∷ rs) h =
    let (t, e, f) = turn-Follows s r (h.0, tt) in
    rw (e, run)
      (Follows-trans s t (run t rs).0 (input_of r.received) (inputs rs) f (follow t rs h.1))

-- While the writes succeed, the peer does not close and the browser listens, the browser has got,
-- after any turns, exactly what the parser puts out for all the bytes that were read, joined: it
-- does not matter how they were cut into reads, nor what was written and answered in between.
pub delivered-run :
    (s : Session) (rs : List Round)
    → Undisturbed rs
    → joined (run s rs).0.delivered
      ≡ joined s.delivered ++ (parse s.columns s.rows (bare s.parser) (inputs rs)).output
delivered-run s rs h = (follow s rs h).got
