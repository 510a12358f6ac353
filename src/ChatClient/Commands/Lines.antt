-- ===== src/ChatClient/Commands/Lines.antt =====
-- What the lines that a user types do in LAB6/client.cpp.
use comp_net.Prelude.{
  ℕ, ◌≡◌, refl, ap, inl, inr, Bool, true, false, none, some, List, [], ◌∷◌, ◌++◌, arith,
  if◌then◌else◌, Bool-cases, Option-cases, drop, is_empty, take-append_length,
}
use comp_net.Text.{Text, codes, text_eq, text_eq→eq}
use comp_net.Text.Trim.{trim}
use comp_net.Text.Search.{find_char-append, drop_behind, find_char}
use comp_net.Message.{msg_list, msg_history, msg_text}
use comp_net.ChatClient.{ChatClient}
use comp_net.ChatClient.Commands.{
  Next, stays, reconnects, quits, finish, send_plain, send_reliably, parse_whisper, whisper,
  history_command, quit, run_command, handle_line, input_loop,
}

abbrev is_quit : Next → Bool
is_quit stays = false
is_quit reconnects = false
is_quit quits = true

finish_stays : (r : Bool × ChatClient) → is_quit (finish r).0 ≡ false
unfolding finish
finish_stays (true, s) = refl
finish_stays (false, s) = refl

send_plain_stays :
    (type : ℕ) (payload : Text) (s : ChatClient) → is_quit (send_plain type payload s).0 ≡ false
unfolding send_plain
send_plain_stays type payload s = finish_stays _

send_reliably_stays :
    (type : ℕ) (payload receiver : Text) (s : ChatClient)
    → is_quit (send_reliably type payload receiver s).0 ≡ false
unfolding send_reliably
send_reliably_stays type payload receiver s = finish_stays _

whisper_stays : (rest : Text) (s : ChatClient) → is_quit (whisper rest s).0 ≡ false
unfolding whisper
whisper_stays rest s = elim (Option-cases (parse_whisper rest)) [
  | inl e ↦ rw (e, whisper) refl
  | inr (parsed, e) ↦ rw (e, whisper) (send_reliably_stays _ parsed.1 parsed.0 s)
]

history_stays : (count : Text) (s : ChatClient) → is_quit (history_command count s).0 ≡ false
unfolding history_command
history_stays count s = ground (arith, send_plain_stays msg_history count s)

run_command_quits :
    (input : Text) (s : ChatClient)
    → is_quit (run_command input s).0 ≡ true
    → text_eq input (codes "/quit") ≡ true
unfolding run_command
run_command_quits input s h = ground (
  arith,
  send_plain_stays msg_list [] s,
  send_plain_stays msg_history [] s,
  history_stays (trim (drop 9 input)) s,
  whisper_stays (trim (drop 3 input)) s,
  send_reliably_stays msg_text input [] s,
)

-- `/w` reads back what it was given: a nickname without spaces, one space, and a text; both must not
-- be empty, and have no white space at their ends.
pub parse_whisper_lem :
    (nickname text : Text)
    → find_char b' ' nickname ≡ none
    → trim nickname ≡ nickname
    → trim text ≡ text
    → is_empty nickname ≡ false
    → is_empty text ≡ false
    → parse_whisper (nickname ++ b' ' ∷ text) ≡ some (nickname, text)
unfolding parse_whisper
parse_whisper_lem nickname text one_word n t some_name some_text =
    rw
      (
        find_char-append b' ' nickname text one_word,
        parse_whisper,
        take-append_length nickname (b' ' ∷ text),
        drop_behind b' ' nickname text,
        n,
        t,
        some_name,
        some_text,
      )
      refl

-- A line that ends the program.
abbrev pub IsQuitLine : Text → Type 0
IsQuitLine line = trim line ≡ codes "/quit"

handle_line_quits :
    (line : Text) (s : ChatClient) → is_quit (handle_line line s).0 ≡ true → IsQuitLine line
unfolding handle_line
handle_line_quits line s h =
    text_eq→eq (trim line) (codes "/quit") (ground (arith, run_command_quits (trim line) s))

-- The end of a round that is no `/quit`.
goes_on :
    (next : Next) (running : Bool) (more : Bool × List Text × ChatClient) (left stopped : List Text)
    (s t : ChatClient)
    → is_quit next ≡ false
    → (let ended : Bool × List Text × ChatClient =
          if running
          then elim next [ stays ↦ more | reconnects ↦ (false, left, t) | quits ↦ (true, left, t) ]
          else (false, stopped, s) in
        ended.0 ≡ true)
    → more.0 ≡ true
goes_on stays true more left stopped s t n h = h
goes_on reconnects true more left stopped s t n h = ground arith
goes_on quits true more left stopped s t n h = ground arith
goes_on next false more left stopped s t n h = ground arith

-- The program ends only by a line `/quit`: if `main` ends within its loop over the lines, one of them
-- is that, up to white space. The end of the input in particular does not end it.
pub input_loop_quits :
    (lines : List Text) (s : ChatClient)
    → (input_loop lines s).0 ≡ true
    → (before : List Text) × (line : Text) × (after : List Text) × (lines ≡ before ++ line ∷ after)
      × IsQuitLine line
unfolding input_loop
input_loop_quits [] s h = ground arith
input_loop_quits (line ∷ lines) s h = elim (Bool-cases (is_quit (handle_line line s).0)) [
  | inl q ↦ ([], line, lines, refl, handle_line_quits line s q)
  | inr n ↦
      let (before, last, after, split, quit) = input_loop_quits lines (handle_line line s).1 (
        goes_on (handle_line line s).0 s.running (input_loop lines (handle_line line s).1) lines
          (line ∷ lines) s (handle_line line s).1 n h) in
      (line ∷ before, last, after, ap (λ lines. line ∷ lines) split, quit)
]
