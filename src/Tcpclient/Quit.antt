-- ===== src/Tcpclient/Quit.antt =====
-- How the interactive client ends.
use os_hw.Prelude.{
  ◌≤◌, ◌≡◌, refl, sym, ◌∙◌, ap, ◌∙◌, true, false, Option, none, some, List, [], ◌∷◌, ◌++◌,
  append-nil, append_assoc, arith, ltb, length, map,
}
use os_hw.Text.{Text}
use os_hw.Tcpclient.{
  is_quit, Chat, Round, waiting, out_of_bounds, send_line, after_typed, after_received, chat_round,
  chat_loop, chatted, main,
}

-- A round of a chat that goes on: both texts fit, and neither is "q" or "Q".
abbrev pub GoesOn : Round → Type 0
GoesOn r =
    (length r.typed ≤ 1023)
    × (is_quit r.typed ≡ false)
    × ((answer : Text) × (r.received ≡ some answer)
        × (length answer ≤ 1023)
        × (is_quit answer ≡ false))

abbrev pub AllGoOn : List Round → Type 0
AllGoOn [] = Unit
AllGoOn (r ∷ rs) = GoesOn r × AllGoOn rs

abbrev pub all_typed : List Round → List Text
all_typed rs = map (λ r. r.typed) rs

abbrev answer_of : Option Text → Text
answer_of none = []
answer_of (some s) = s

abbrev pub all_answers : List Round → List Text
all_answers rs = map (λ r. answer_of r.received) rs

-- An open chat that has sent and printed so much.
abbrev chat : List Text → List Text → Chat
chat sent printed = record { is_open = true; sent = sent; printed = printed }

chat_round-GoesOn :
    (r : Round) (sent printed : List Text)
    → GoesOn r
    → chat_round r (chat sent printed)
      ≡ waiting (chat (sent ++ r.typed ∷ []) (printed ++ answer_of r.received ∷ []))
unfolding chat_round after_typed send_line after_received
chat_round-GoesOn r sent printed (fits, stays, (answer, came, fits', stays')) =
    let short : ltb 1023 (length r.typed) ≡ false = ground arith in
    let short' : ltb 1023 (length answer) ≡ false = ground arith in
    rw (chat_round, short, after_typed, stays, came, after_received, short', stays') refl

chat_round_quit :
    (r : Round) (sent printed : List Text)
    → length r.typed ≤ 1023
    → is_quit r.typed ≡ true
    → chat_round r (chat sent printed)
      ≡ out_of_bounds (record { is_open = false; sent = sent ++ r.typed ∷ []; printed = printed })
unfolding chat_round after_typed send_line after_received
chat_round_quit r sent printed fits quits =
    let short : ltb 1023 (length r.typed) ≡ false = ground arith in
    rw (chat_round, short, after_typed, quits) refl

chat_loop_ended : (rs : List Round) (c : Chat) → chat_loop rs (out_of_bounds c) ≡ out_of_bounds c
unfolding chat_loop
chat_loop_ended [] c = refl
chat_loop_ended (r ∷ rs) c = refl

chat_loop_quit :
    (rs more : List Round) (r : Round) (sent printed : List Text)
    → AllGoOn rs
    → length r.typed ≤ 1023
    → is_quit r.typed ≡ true
    → chat_loop (rs ++ r ∷ more) (waiting (chat sent printed))
      ≡ out_of_bounds (record {
        is_open = false;
        sent = sent ++ (all_typed rs ++ r.typed ∷ []);
        printed = printed ++ all_answers rs;
      })
unfolding chat_loop
chat_loop_quit [] more r sent printed h fits quits =
    let closed : Chat = record {
      is_open = false;
      sent = sent ++ r.typed ∷ [];
      printed = printed;
    } in
    ap (chat_loop more) (chat_round_quit r sent printed fits quits)
    ∙ chat_loop_ended more closed
    ∙ ap (λ l. out_of_bounds (record { is_open = false; sent = sent ++ r.typed ∷ []; printed = l }))
        (sym (append-nil printed))
chat_loop_quit (x ∷ rs) more r sent printed h fits quits =
    let sent' = sent ++ x.typed ∷ [] in
    let printed' = printed ++ answer_of x.received ∷ [] in
    ap (chat_loop (rs ++ r ∷ more)) (chat_round-GoesOn x sent printed h.0)
    ∙ chat_loop_quit rs more r sent' printed' h.1 fits quits
    ∙ ap
        (λ l.
          out_of_bounds
            (record { is_open = false; sent = l; printed = printed' ++ all_answers rs }))
        (append_assoc sent (x.typed ∷ []) (all_typed rs ++ r.typed ∷ []))
    ∙ ap
        (λ l. out_of_bounds (record {
          is_open = false;
          sent = sent ++ x.typed ∷ (all_typed rs ++ r.typed ∷ []);
          printed = l;
        }))
        (append_assoc printed (answer_of x.received ∷ []) (all_answers rs))

-- When "q" or "Q" is typed after rounds in which both texts fit and neither of them is "q" or "Q",
-- the server has got all that was typed, in order, and all its answers were printed; but the client
-- does not end: in the same round it clears a byte in front of `recv_data`, since it receives from
-- the socket that it has closed.
pub main_quit :
    (rs more : List Round) (r : Round)
    → AllGoOn rs
    → length r.typed ≤ 1023
    → is_quit r.typed ≡ true
    → main true true (rs ++ r ∷ more)
      ≡ chatted (
          out_of_bounds (record {
            is_open = false;
            sent = all_typed rs ++ r.typed ∷ [];
            printed = all_answers rs;
          }))
unfolding main
main_quit rs more r h fits quits = ap chatted (chat_loop_quit rs more r [] [] h fits quits)
