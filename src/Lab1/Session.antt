-- ===== src/Lab1/Session.antt =====
-- A client and the server of LAB1, from the start of the client to its end.
use comp_net.Prelude.{
  ℕ, ◌≡◌, refl, sym, ap, ◌∙◌, Bool, true, false, Option, some, List, [], ◌∷◌, ◌++◌, append-nil,
  append_assoc, take, is_empty, All,
}
use comp_net.Text.{Text, codes}
use comp_net.Text.CString.{c_str}
use comp_net.Text.Number.{ℤ}
use comp_net.Lab1.{Server, Client, room, serve, talk, communication_loop}
use comp_net.Lab1.Echo.{last_sent, talk-serve}
use comp_net.Lab1.Setup.{to_uint16, start, configure_address, options, prompt, run, main}

-- The rounds of a client whose lines all reach the server, and whose answers all come back.
abbrev pub rounds : Text → List Text → Server → List (Text × Bool × Option Text)
rounds peer [] s = []
rounds peer (line ∷ lines) s =
    let s1 = serve true (some (peer, line)) s in
    (line, true, last_sent s1.outbox) ∷ rounds peer lines s1

-- The line that the client prints for a line of the user.
abbrev pub response : Text → Text
response line = codes "Response: " ++ c_str (take room line) ++ codes "\n"

abbrev pub responses : List Text → Text
responses [] = []
responses (line ∷ lines) = response line ++ responses lines

talk-response :
    (input peer : Text) (c : Client) (s : Server)
    → (talk input true (last_sent (serve true (some (peer, input)) s).outbox) c).console
      ≡ c.console ++ response input
talk-response input peer c s =
    talk-serve input peer c s
    ∙ ap (◌++ codes "\n") (append_assoc c.console (codes "Response: ") _)
    ∙ append_assoc c.console _ (codes "\n")

console-communication_loop :
    (lines : List Text) (peer : Text) (c : Client) (s : Server)
    → All (λ line. is_empty line ≡ false) lines
    → (communication_loop (rounds peer lines s) c).console ≡ c.console ++ responses lines
unfolding communication_loop
console-communication_loop [] peer c s h = sym (append-nil _)
console-communication_loop (line ∷ lines) peer c s (some_text, h) =
    let s1 = serve true (some (peer, line)) s in
    rw (some_text, communication_loop)
      (console-communication_loop lines peer (talk line true (last_sent s1.outbox) c) s1 h
        ∙ ap (◌++ responses lines) (talk-response line peer c s)
        ∙ append_assoc c.console (response line) (responses lines))

configure_address-known :
    (inet_pton : Text → Option Text) (ip addr : Text) (port : ℤ)
    → inet_pton ip ≡ some addr
    → configure_address inet_pton ip port ≡ some (record { addr = addr; port = to_uint16 port })
unfolding configure_address
configure_address-known inet_pton ip addr port known = rw (known, configure_address) refl

-- A whole session: if the arguments give an address that `inet_pton` takes, the user types lines that
-- are not empty, and every datagram arrives, then the client prints, behind the prompt, the first
-- 1023 bytes of each line, up to a NUL, in the order of the lines; it closes its socket once and ends
-- with exit code 0.
pub main-rounds :
    (inet_pton : Text → Option Text) (args : List Text) (ip addr : Text) (port : ℤ) (fd : ℕ)
    (lines : List Text) (peer : Text) (c : Client) (s : Server)
    → options args ≡ some (ip, port)
    → inet_pton ip ≡ some addr
    → All (λ line. is_empty line ≡ false) lines
    → (client : Client) × (main inet_pton args (some fd) (λ _. rounds peer lines s) c
        ≡ some (record { code = 0; closed = fd ∷ []; client = client }))
      × (client.console ≡ (c.console ++ prompt) ++ responses lines)
unfolding main start run
main-rounds inet_pton args ip addr port fd lines peer c s given known texts = (
  communication_loop (rounds peer lines s) (record c { console = c.console ++ prompt }),
  rw (given, main, configure_address-known inet_pton ip addr port known) refl,
  console-communication_loop lines peer (record c { console = c.console ++ prompt }) s texts,
)
