-- ===== src/Lab1.antt =====
-- LAB1/server.cpp and LAB1/client.cpp: an echo over UDP.
pub mod Echo
pub mod Setup
pub mod Session
use comp_net.Prelude.{
  ℕ, ◌+◌, ◌-◌, Bool, Option, none, some, List, [], ◌∷◌, ◌++◌, if◌then◌else◌, take, is_empty,
}
use comp_net.Text.{Text, codes}
use comp_net.Text.CString.{c_str}
use comp_net.Text.Number.{ℤ, pos, negsuc, stoi}

-- `sizeof(buffer) - 1`, in both programs.
abbrev pub room : ℕ
room = 1024 - 1

-- What the server has printed, how many errors it has reported, and the datagrams that it has sent,
-- each with the address it went to.
pub record Server : Type 0 where
  pub console : Text
  pub errors : ℕ
  pub outbox : List (Text × Text)

-- What `recvfrom` stores of a datagram: the rest is lost.
unfoldable pub received : Text → Text
received datagram = take room datagram

-- A round of `runServer`: `none` is an error of `recvfrom`; otherwise the address of the sender and
-- the datagram. `sends` is whether `sendto` succeeds.
unfoldable pub serve : Bool → Option (Text × Text) → Server → Server
serve sends none s = record s { errors = s.errors + 1 }
serve sends (some (peer, datagram)) s =
    let buffer = received datagram in
    record s {
      console =
          s.console ++ codes "Client " ++ peer ++ codes " says: " ++ c_str buffer ++ codes "\n";
      errors = if sends then s.errors else s.errors + 1;
      outbox = s.outbox ++ (peer, buffer) ∷ [];
    }

-- `initializeServer`, from the result of `socket` and whether `bind` succeeds: the descriptor, if
-- there is one, and what was closed.
unfoldable pub initialize_server : Option ℕ → Bool → Option ℕ × List ℕ
initialize_server none bound = (none, [])
initialize_server (some fd) bound = if bound then (some fd, []) else (none, fd ∷ [])

-- The port, from the arguments; `none` is the exception of `std::stoi`.
unfoldable pub listen_port : List Text → Option ℤ
listen_port [] = some (pos 9000)
listen_port (arg ∷ args) = stoi arg

-- What the client has printed and sent, and how many errors it has reported.
pub record Client : Type 0 where
  pub console : Text
  pub errors : ℕ
  pub outbox : List Text

-- A round of `communicationLoop` on a line that is not empty: whether `sendto` succeeds, and what
-- `recvfrom` gets, `none` for an error.
unfoldable pub talk : Text → Bool → Option Text → Client → Client
talk input sends answer c =
    let c1 = record c { outbox = c.outbox ++ input ∷ [] } in
    let heard : Client = elim answer [
      | none ↦ record c1 { errors = c1.errors + 1 }
      | some datagram ↦ record c1 {
        console = c1.console ++ codes "Response: " ++ c_str (received datagram) ++ codes "\n";
      }
    ] in
    if sends then heard else record c { errors = c.errors + 1 }

-- The loop, over the lines with what the system does in each round: it ends at an empty line.
unfoldable pub communication_loop : List (Text × Bool × Option Text) → Client → Client
communication_loop [] c = c
communication_loop ((input, sends, answer) ∷ rounds) c =
    if is_empty input then c else communication_loop rounds (talk input sends answer c)
