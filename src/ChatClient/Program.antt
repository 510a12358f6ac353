-- ===== src/ChatClient/Program.antt =====
-- `main` of LAB6/client.cpp, on the main thread.
pub mod Exit
use comp_net.Prelude.{ℕ, true, Option, none, some, List, [], ◌∷◌, if◌then◌else◌, is_empty}
use comp_net.Text.{Text, codes}
use comp_net.Text.Trim.{trim}
use comp_net.Message.{MessageEx}
use comp_net.ChatClient.{ChatClient}
use comp_net.ChatClient.Output.{print}
use comp_net.ChatClient.Connect.{Attempt, connect_and_authorize}
use comp_net.ChatClient.Commands.{input_loop, reconnect}

-- What the system will answer to one `connectAndAuthorize`, and the messages that come in then.
pub record Link : Type 0 where
  pub attempts : List Attempt
  pub frames : List MessageEx

-- The exit code and the state at the end, or `none` if the program still runs when the links are
-- used up.
abbrev pub Exit : Type 0
Exit = Option (ℕ × ChatClient)

-- What follows a `connectAndAuthorize`: exit code 1 if it failed, otherwise `go` from there.
unfoldable pub continue : Option (Option (List MessageEx) × ChatClient) → (ChatClient → Exit) → Exit
continue none go = none
continue (some (none, s)) go = some (1, s)
continue (some (some frames, s)) go = go s

-- The outer loop, over the links that are still to come and the lines of the user.
unfoldable pub main_loop : List Link → List Text → ChatClient → Exit
main_loop [] lines s = none
main_loop (link ∷ links) lines s =
    let (ended, left, s1) = input_loop lines (record s { running = true }) in
    let on = continue (reconnect link.attempts link.frames s1) (main_loop links left) in
    if ended then some (0, s1) else on

-- `main`, from the nickname that the user types.
unfoldable pub main : Text → Link → List Link → List Text → ChatClient → Exit
main line link links lines s =
    let asked = print (codes "Enter nickname: ") s in
    let named = record asked { nickname = trim line } in
    let connected =
      continue (connect_and_authorize link.attempts link.frames named) (main_loop links lines) in
    if is_empty (trim line)
    then some (1, print (codes "Nickname cannot be empty\n") named)
    else connected
