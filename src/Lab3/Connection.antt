-- ===== src/Lab3/Connection.antt =====
-- A connection of LAB3/server.cpp, from its start to its end.
use comp_net.Prelude.{
  ℕ, ◌≡◌, refl, ap, ◌∙◌, inl, inr, false, List, [], ◌∷◌, ◌++◌, arith, ◌==◌, ==_iff, Bool-cases, All,
}
use comp_net.Message.{msg_welcome}
use comp_net.Lab4.{Message}
use comp_net.Lab3.{
  Server, blank, send_to, broadcast_loop, broadcast, remove_loop, remove_client, dispatch,
  serve_loop, close_socket, handle_client,
}

-- Only messages were sent.
abbrev Quiet : Server → Server → Type 0
Quiet s t = (t.clients ≡ s.clients) × (t.closed ≡ s.closed)

broadcast_loop-Quiet :
    (socks : List ℕ) (msg : Message) (s : Server) → Quiet s (broadcast_loop socks msg s)
unfolding broadcast_loop send_to
broadcast_loop-Quiet [] msg s = (refl, refl)
broadcast_loop-Quiet (sock ∷ socks) msg s = broadcast_loop-Quiet socks msg (send_to sock msg s)

dispatch-Quiet : (sock : ℕ) (msg : Message) (s : Server) → Quiet s (dispatch sock msg s).1
unfolding dispatch send_to broadcast
dispatch-Quiet sock msg s = ground (arith, broadcast_loop-Quiet s.clients msg s)

serve_loop-Quiet :
    (sock : ℕ) (frames : List Message) (s : Server) → Quiet s (serve_loop sock frames s)
unfolding serve_loop
serve_loop-Quiet sock [] s = (refl, refl)
serve_loop-Quiet sock (msg ∷ frames) s =
    let done = dispatch-Quiet sock msg s in
    let more = serve_loop-Quiet sock frames (dispatch sock msg s).1 in
    elim (Bool-cases (dispatch sock msg s).0) [
      | inl e ↦ rw (serve_loop, e) (more.0 ∙ done.0, more.1 ∙ done.1)
      | inr e ↦ rw (serve_loop, e) done
    ]

remove_loop-append :
    (sock : ℕ) (socks : List ℕ)
    → All (λ c. (c == sock) ≡ false) socks
    → remove_loop sock (socks ++ sock ∷ []) ≡ socks
unfolding remove_loop
remove_loop-append sock [] h = let e = (==_iff sock sock).1 refl in rw e refl
remove_loop-append sock (c ∷ socks) h = rw h.0 (ap (◌∷◌ c) (remove_loop-append sock socks h.1))

-- A connection of LAB3 that runs alone, on a socket that no client has, leaves the clients as they
-- were, whatever comes in over it, and closes its socket once.
pub handle_client-restores :
    (sock : ℕ) (frames : List Message) (s : Server)
    → All (λ c. (c == sock) ≡ false) s.clients
    → ((handle_client sock frames s).clients ≡ s.clients)
      × ((handle_client sock frames s).closed ≡ s.closed ++ sock ∷ [])
unfolding handle_client close_socket remove_client send_to
handle_client-restores sock [] s h = (refl, refl)
handle_client-restores sock (hello ∷ frames) s h =
    let s1 = send_to sock (blank msg_welcome) s in
    let s2 = record s1 { clients = s1.clients ++ sock ∷ [] } in
    let quiet = serve_loop-Quiet sock frames s2 in
    (
      ap (remove_loop sock) quiet.0 ∙ remove_loop-append sock s.clients h,
      ap (λ closed. closed ++ sock ∷ []) quiet.1,
    )
