-- ===== src/Lab1/Setup.antt =====
-- `main` of LAB1/client.cpp, with what it sets up.
use comp_net.Prelude.{ℕ, ◌+◌, ◌-◌, ◌%◌, Bool, Option, none, some, List, [], ◌∷◌, ◌++◌, ◌>>=◌}
use comp_net.Text.{Text, codes}
use comp_net.Text.Number.{ℤ, pos, negsuc, stoi}
use comp_net.Lab1.{Client, communication_loop}

-- The parts of `sockaddr_in` that are set: `sin_addr`, as `inet_pton` writes it, and `sin_port`
-- before `htons`.
pub record Address : Type 0 where
  pub addr : Text
  pub port : ℕ

-- `static_cast<uint16_t>(port)`
unfoldable pub to_uint16 : ℤ → ℕ
to_uint16 (pos n) = n % 65536
to_uint16 (negsuc n) = 65535 - n % 65536

-- `configureAddress`, with `inet_pton` as a parameter: `none` if it does not return 1, which
-- `configureAddress` reports.
unfoldable pub configure_address : (Text → Option Text) → Text → ℤ → Option Address
configure_address inet_pton ip port = elim (inet_pton ip) [
  | none ↦ none
  | some addr ↦ some (record { addr = addr; port = to_uint16 port })
]

-- The arguments behind the program's name, with their defaults: the address and the port. `none` is
-- the exception of `std::stoi`.
unfoldable pub options : List Text → Option (Text × ℤ)
options [] = some (codes "127.0.0.1", pos 9000)
options (ip ∷ []) = some (ip, pos 9000)
options (ip ∷ port ∷ args) = do number ← stoi port; some (ip, number)

-- How the program ends: the exit code, the sockets that were closed, and the client.
pub record Finish : Type 0 where
  pub code : ℕ
  pub closed : List ℕ
  pub client : Client

-- What `communicationLoop` prints first.
abbrev pub prompt : Text
prompt = codes "Type message (empty line to quit):\n"

unfoldable pub report : Client → Client
report c = record c { errors = c.errors + 1 }

-- From a socket on: the loop runs against the address.
unfoldable pub run :
    Option Address → ℕ → (Address → List (Text × Bool × Option Text)) → Client → Finish
run none fd rounds c = record { code = 1; closed = fd ∷ []; client = report c }
run (some server) fd rounds c = record {
  code = 0;
  closed = fd ∷ [];
  client = communication_loop (rounds server) (record c { console = c.console ++ prompt });
}

-- `createUdpSocket`, by the result of `socket`, and what follows it.
unfoldable pub start :
    Option ℕ → Option Address → (Address → List (Text × Bool × Option Text)) → Client → Finish
start none server rounds c = record { code = 1; closed = []; client = report c }
start (some fd) server rounds c = run server fd rounds c

-- `main`, with the result of `socket`, and what the rounds bring at an address. `none`: the program
-- ends by the exception.
unfoldable pub main :
    (Text → Option Text)
    → List Text
    → Option ℕ
    → (Address → List (Text × Bool × Option Text))
    → Client
    → Option Finish
main inet_pton args socket rounds c = elim (options args) [
  | none ↦ none
  | some (ip, port) ↦ some (start socket (configure_address inet_pton ip port) rounds c)
]
