-- ===== src/Transport.antt =====
-- `sendAll` and `recvAll` of LAB6/server.cpp and LAB6/client.cpp: a message goes through a TCP socket
-- in as many pieces as the system likes.
pub mod Complete
use comp_net.Prelude.{
  ℕ, zero, suc, ◌+◌, ◌-◌, ◌≤◌, ◌<◌, ◌≡◌, refl, sym, ap, ◌∙◌, ◌⊎◌, inl, inr, Bool, true, false,
  Option, none, some, List, [], ◌∷◌, ◌++◌, append-nil, append_assoc, arith, ltb, if◌then◌else◌,
  Bool-cases, length, take, drop, length-append, length-take, length-drop, take-append-drop,
}

-- The system's side of one socket: what the n-th call of `send` or `recv` answers, given how many
-- bytes are asked for. `none` is a negative result, an error.
pub record Socket : Type 0 where
  pub send : ℕ → ℕ → Option ℕ
  pub recv : ℕ → ℕ → Option (List ℕ)

-- POSIX: no call takes or gives more than it was asked for.
pub record IsPosix (k : Socket) : Type 0 where
  pub send_fits : (call size n : ℕ) → k.send call size ≡ some n → n ≤ size
  pub recv_fits :
      (call size : ℕ) (bytes : List ℕ) → k.recv call size ≡ some bytes → length bytes ≤ size

-- How a transfer ended: the result, the bytes moved, and the number of the next call.
pub record Transfer : Type 0 where
  pub ok : Bool
  pub bytes : List ℕ
  pub next_call : ℕ

-- `if (rc <= 0)`, otherwise the count.
positive : Option ℕ → Option ℕ
positive none = none
positive (some zero) = none
positive (some (suc n)) = some (suc n)

-- The loop of `sendAll`: `rest` is what lies from `ptr + sent` on, and `moved` what has been handed
-- over. `none`: the fuel ran out.
send_loop : Socket → ℕ → ℕ → List ℕ → List ℕ → Option Transfer
unfolding positive
send_loop k zero call [] moved = some (record { ok = true; bytes = moved; next_call = call })
send_loop k zero call (b ∷ rest) moved = none
send_loop k (suc fuel) call [] moved = some (record { ok = true; bytes = moved; next_call = call })
send_loop k (suc fuel) call (b ∷ rest) moved = elim (positive (k.send call (length (b ∷ rest)))) [
  | none ↦ some (record { ok = false; bytes = moved; next_call = suc call })
  | some rc ↦ send_loop k fuel (suc call) (drop rc (b ∷ rest)) (moved ++ take rc (b ∷ rest))
]

unfoldable pub send_all : Socket → ℕ → List ℕ → Option Transfer
unfolding send_loop
send_all k call bytes = send_loop k (length bytes) call bytes []

-- `recv` answers the bytes that it stored; none at all means that the peer has closed.
received : Option (List ℕ) → Option (List ℕ)
received none = none
received (some []) = none
received (some (b ∷ bytes)) = some (b ∷ bytes)

-- The loop of `recvAll`: `missing` is `size - received`.
recv_loop : Socket → ℕ → ℕ → ℕ → List ℕ → Option Transfer
unfolding received
recv_loop k zero call zero moved = some (record { ok = true; bytes = moved; next_call = call })
recv_loop k zero call (suc missing) moved = none
recv_loop k (suc fuel) call zero moved =
    some (record { ok = true; bytes = moved; next_call = call })
recv_loop k (suc fuel) call (suc missing) moved = elim (received (k.recv call (suc missing))) [
  | none ↦ some (record { ok = false; bytes = moved; next_call = suc call })
  | some bytes ↦ recv_loop k fuel (suc call) (suc missing - length bytes) (moved ++ bytes)
]

unfoldable pub recv_all : Socket → ℕ → ℕ → Option Transfer
unfolding recv_loop
recv_all k call size = recv_loop k size call size []

-- The result of `sendAll`, and the number of the next call.
unfoldable pub transfer_ok : Option Transfer → Bool
transfer_ok none = false
transfer_ok (some t) = t.ok

unfoldable pub transfer_calls : ℕ → Option Transfer → ℕ
transfer_calls calls none = calls
transfer_calls calls (some t) = t.next_call
