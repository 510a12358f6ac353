-- ===== src/Login/Agreement.antt =====
-- A login, on both sides.
use comp_net.Prelude.{
  ℕ, ◌≡◌, ap, ◌∙◌, inl, inr, true, Option, none, some, List, [], ◌∷◌, ◌++◌, append_assoc,
  Option-cases,
}
use comp_net.Text.{Text, codes}
use comp_net.Text.Trim.{trim}
use comp_net.Message.{MessageEx, max_payload}
use comp_net.Message.Sealed.{FitsArray}
use comp_net.Server.{Server}
use comp_net.Server.Session.{
  nickname_error, admit, check_nickname, serve_authenticated, handle_client,
}
use comp_net.Server.Outbox.{addressed, info_message, error_message}
use comp_net.ChatClient.{ChatClient}
use comp_net.ChatClient.Connect.{await_answer, authorize}
use comp_net.Login.{hello, greeted, auth, asked, welcoming, welcomed}
use comp_net.Login.Served.{
  Answered, success, nickname_error-welcomed, handle_client-opened, addressed-welcomed,
  refused-Answered, admitted-Answered,
}
use comp_net.Login.Asked.{
  authorize-welcomed, outbox-asked, await_answer-refused, await_answer-admitted,
  await_answer-outbox, console-asked, nickname_error-FitsArray,
}

-- How a login ends: both sides agree.
pub data Verdict (nickname : Text) (frames : List MessageEx) (s : Server)
    (left : Option (List MessageEx)) (before after : Text) : Type 0 where
  accepted :
      nickname_error nickname s ≡ none
      → left ≡ some frames
      → Verdict nickname frames s left before after
  rejected :
      (reason : Text)
      → nickname_error nickname s ≡ some reason
      → left ≡ none
      → after ≡ before ++ (codes "[ERROR]: " ++ reason ++ codes "\n")
      → Verdict nickname frames s left before after

-- What the two sides send each other, and how it ends.
pub record Agreement (sock : ℕ) (later frames : List MessageEx) (s : Server) (c : ChatClient)
    : Type 0 where
  pub answer : MessageEx
  pub more : List (ℕ × MessageEx)
  pub from_server :
      addressed (handle_client sock ((hello c).0 ∷ (auth c).0 ∷ later) s).outbox
      ≡ addressed s.outbox ++ (sock, (welcoming s).0) ∷ (sock, answer) ∷ more
  pub from_client :
      (authorize ((welcoming s).0 ∷ answer ∷ frames) c).1.outbox
      ≡ c.outbox
        ++ record { msg = (hello c).0; ok = true } ∷ record { msg = (auth c).0; ok = true } ∷ []
  pub verdict :
      Verdict c.nickname frames s
        (authorize ((welcoming s).0 ∷ answer ∷ frames) c).0
        c.console
        (authorize ((welcoming s).0 ∷ answer ∷ frames) c).1.console

-- The connection and the client's side of it, from the server's answer.
agree :
    (sock : ℕ) (answer : MessageEx) (later frames : List MessageEx) (s : Server) (c : ChatClient)
    → FitsArray max_payload c.nickname
    → trim c.nickname ≡ c.nickname
    → (welcomed sock s).0 ≡ true
    → (greeted c).0 ≡ true
    → (asked c).0 ≡ true
    → Answered sock answer (welcomed sock s).1 (
        let (session, s1) = check_nickname sock c.nickname later (welcomed sock s).1 in
        serve_authenticated sock session s1)
    → (let (left, c1) = await_answer (answer ∷ frames) (asked c).1 in
        Verdict c.nickname frames s left c.console c1.console)
    → Agreement sock later frames s c
agree sock answer later frames s c fits trimmed ok g a answered verdict = record {
  answer = answer;
  more = answered.more;
  from_server =
      ap (λ t. addressed t.outbox) (handle_client-opened sock later s c fits trimmed ok)
      ∙ answered.outbox
      ∙ ap (◌++ ((sock, answer) ∷ answered.more)) (addressed-welcomed sock s)
      ∙ append_assoc (addressed s.outbox) ((sock, (welcoming s).0) ∷ []) _;
  from_client =
      rw (authorize-welcomed s answer frames c g a)
        (await_answer-outbox (answer ∷ frames) (asked c).1 ∙ outbox-asked c ∙ rw (g, a));
  verdict = rw (authorize-welcomed s answer frames c g a) verdict;
}

-- A login, on both sides. If the server can send its welcome and the client its two messages, and the
-- client's nickname is trimmed, has no NUL and fits the payload, then the client sends MSG_HELLO and
-- MSG_AUTH; a connection that brings these two, and whatever comes later, sends to the socket the
-- welcome and one answer before all else; and the client that reads the two has the verdict of the
-- server: it goes on with the messages that are left exactly when the server finds no fault with the
-- nickname, and else gives up, and has printed the server's reason.
pub authorize-handle_client :
    (sock : ℕ) (later frames : List MessageEx) (s : Server) (c : ChatClient)
    → FitsArray max_payload c.nickname
    → trim c.nickname ≡ c.nickname
    → (welcomed sock s).0 ≡ true
    → (greeted c).0 ≡ true
    → (asked c).0 ≡ true
    → Agreement sock later frames s c
authorize-handle_client sock later frames s c fits trimmed ok g a =
    let s1 = (welcomed sock s).1 in
    elim (Option-cases (nickname_error c.nickname s)) [
      | inl free ↦
          agree sock (info_message success (admit sock c.nickname s1).1) later frames s c fits
            trimmed ok g a
            (admitted-Answered sock c.nickname later s1
              (nickname_error-welcomed sock c.nickname s ∙ free))
            (accepted free (await_answer-admitted _ frames (asked c).1))
      | inr (reason, e) ↦
          let (left, console) =
            await_answer-refused reason s1 frames (asked c).1
              (nickname_error-FitsArray c.nickname reason s e) in
          agree sock (error_message reason s1) later frames s c fits trimmed ok g a
            (refused-Answered sock c.nickname reason later s1
              (nickname_error-welcomed sock c.nickname s ∙ e))
            (rejected reason e left
              (console ∙ ap (◌++ (codes "[ERROR]: " ++ reason ++ codes "\n")) (console-asked c)))
    ]
