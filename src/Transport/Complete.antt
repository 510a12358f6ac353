-- ===== src/Transport/Complete.antt =====
-- `sendAll` and `recvAll` end, and move all or report that they did not.
use comp_net.Prelude.{
  ℕ, zero, suc, ◌+◌, ◌-◌, ◌≤◌, ◌<◌, ◌≡◌, refl, ap, ◌∙◌, inl, inr, true, false, Option, none, some,
  List, [], ◌∷◌, ◌++◌, append_assoc, arith, length, take, drop, length-append, length-drop,
  take-append-drop, is_empty, Option-cases,
}
use comp_net.Transport.{
  Socket, IsPosix, Transfer, positive, received, send_loop, send_all, recv_loop, recv_all,
}

positive-pos : (rc : Option ℕ) (n : ℕ) → positive rc ≡ some n → 0 < n
unfolding positive
positive-pos rc n h = ground arith

received-some :
    (r : Option (List ℕ)) (bytes : List ℕ)
    → received r ≡ some bytes
    → (r ≡ some bytes) × (0 < length bytes)
unfolding received
received-some none bytes h = ground arith
received-some (some []) bytes h = ground arith
received-some (some (b ∷ r)) bytes h = ground arith

-- A transfer of `all` from position `done` on: what was moved, and what is left, is `all`; it is
-- reported as complete exactly if nothing is left.
pub record Accounts (all : List ℕ) (r : Option Transfer) : Type 0 where
  pub transfer : Transfer
  pub left : List ℕ
  pub returns : r ≡ some transfer
  pub split : all ≡ transfer.bytes ++ left
  pub complete : transfer.ok ≡ is_empty left

send_loop-Accounts :
    (k : Socket) (fuel call : ℕ) (rest moved : List ℕ)
    → length rest ≤ fuel
    → Accounts (moved ++ rest) (send_loop k fuel call rest moved)
unfolding send_loop
send_loop-Accounts k zero call [] moved h = record {
  transfer = record { ok = true; bytes = moved; next_call = call };
  left = [];
  returns = refl;
  split = refl;
  complete = refl;
}
send_loop-Accounts k zero call (b ∷ rest) moved h = absurd (omega arith)
send_loop-Accounts k (suc fuel) call [] moved h = record {
  transfer = record { ok = true; bytes = moved; next_call = call };
  left = [];
  returns = refl;
  split = refl;
  complete = refl;
}
send_loop-Accounts k (suc fuel) call (b ∷ rest) moved h =
    elim (Option-cases (positive (k.send call (length (b ∷ rest))))) [
      | inl e ↦
          rw (e, send_loop)
            (record {
              transfer = record { ok = false; bytes = moved; next_call = suc call };
              left = b ∷ rest;
              returns = refl;
              split = refl;
              complete = refl;
            })
      | inr (rc, e) ↦
          let whole : (moved ++ take rc (b ∷ rest)) ++ drop rc (b ∷ rest) ≡ moved ++ b ∷ rest =
            append_assoc moved _ _ ∙ ap (◌++◌ moved) (take-append-drop rc (b ∷ rest)) in
          rw (e, send_loop)
            (rw whole at (
              send_loop-Accounts k fuel (suc call) (drop rc (b ∷ rest))
                (moved ++ take rc (b ∷ rest))
                (omega (arith, length-drop rc (b ∷ rest), positive-pos _ rc e))))
    ]

-- Whatever the system answers, `sendAll` returns. What it has handed over is a front part of the
-- data, in order, and it reports success exactly if that is all of the data.
pub send_all-Accounts :
    (k : Socket) (call : ℕ) (bytes : List ℕ) → Accounts bytes (send_all k call bytes)
unfolding send_all
send_all-Accounts k call bytes = send_loop-Accounts k (length bytes) call bytes [] (omega arith)

-- How `recvAll` ended: it has returned, with `size` bytes on success and fewer on failure.
pub record Fills (size : ℕ) (r : Option Transfer) : Type 0 where
  pub transfer : Transfer
  pub returns : r ≡ some transfer
  pub full : transfer.ok ≡ true → length transfer.bytes ≡ size
  pub short : transfer.ok ≡ false → length transfer.bytes < size

recv_loop-Fills :
    (k : Socket)
    → IsPosix k
    → (fuel call missing : ℕ) (moved : List ℕ) (size : ℕ) → missing ≤ fuel
    → length moved + missing ≡ size
    → Fills size (recv_loop k fuel call missing moved)
unfolding recv_loop
recv_loop-Fills k p zero call zero moved size h e = record {
  transfer = record { ok = true; bytes = moved; next_call = call };
  returns = refl;
  full = λ _. omega arith;
  short = λ f. cc;
}
recv_loop-Fills k p zero call (suc missing) moved size h e = absurd (omega arith)
recv_loop-Fills k p (suc fuel) call zero moved size h e = record {
  transfer = record { ok = true; bytes = moved; next_call = call };
  returns = refl;
  full = λ _. omega arith;
  short = λ f. cc;
}
recv_loop-Fills k p (suc fuel) call (suc missing) moved size h e =
    elim (Option-cases (received (k.recv call (suc missing)))) [
      | inl f ↦
          rw (f, recv_loop)
            (record {
              transfer = record { ok = false; bytes = moved; next_call = suc call };
              returns = refl;
              full = λ g. cc;
              short = λ _. omega arith;
            })
      | inr (bytes, f) ↦
          let (got, pos) = received-some _ bytes f in
          let fits = p.recv_fits call (suc missing) bytes got in
          rw (f, recv_loop)
            (recv_loop-Fills k p fuel (suc call) (suc missing - length bytes) (moved ++ bytes) size
              (omega arith) (omega (arith, length-append moved bytes)))
    ]

-- `recvAll` returns; on success the buffer has been filled exactly, and on failure it has not.
pub recv_all-Fills : (k : Socket) (call size : ℕ) → IsPosix k → Fills size (recv_all k call size)
unfolding recv_all
recv_all-Fills k call size p =
    recv_loop-Fills k p size call size [] size (omega arith) (omega arith)
