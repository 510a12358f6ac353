-- ===== src/Lab1/Echo.antt =====
-- What a client of LAB1 gets back from the server.
use comp_net.Prelude.{
  ℕ, zero, suc, ◌≡◌, refl, ap, true, Option, none, some, List, [], ◌∷◌, ◌++◌, take,
}
use comp_net.Text.{Text, codes}
use comp_net.Text.CString.{c_str}
use comp_net.Lab1.{Server, Client, room, received, serve, talk}

-- The payload of the last datagram.
unfoldable pub last_sent : List (Text × Text) → Option Text
last_sent [] = none
last_sent ((peer, datagram) ∷ []) = some datagram
last_sent (sent ∷ next ∷ more) = last_sent (next ∷ more)

last_sent-append :
    (sents : List (Text × Text)) (peer datagram : Text)
    → last_sent (sents ++ (peer, datagram) ∷ []) ≡ some datagram
unfolding last_sent
last_sent-append [] peer datagram = refl
last_sent-append (x ∷ []) peer datagram = refl
last_sent-append (x ∷ y ∷ sents) peer datagram = last_sent-append (y ∷ sents) peer datagram

take-take : (n : ℕ) (s : Text) → take n (take n s) ≡ take n s
take-take zero s = refl
take-take (suc n) [] = refl
take-take (suc n) (c ∷ s) = ap (◌∷◌ c) (take-take n s)

-- A line that goes to the server in one datagram, whose answer comes back: the client prints the
-- first 1023 bytes of the line, up to a NUL.
pub talk-serve :
    (input peer : Text) (c : Client) (s : Server)
    → (talk input true (last_sent (serve true (some (peer, input)) s).outbox) c).console
      ≡ c.console ++ codes "Response: " ++ c_str (take room input) ++ codes "\n"
unfolding talk serve received
talk-serve input peer c s =
    rw (last_sent-append s.outbox peer (received input), received, take-take room input) refl
