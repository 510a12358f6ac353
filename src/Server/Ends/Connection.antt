-- ===== src/Server/Ends/Connection.antt =====
-- The end of a whole connection of LAB6/server.cpp.
use comp_net.Prelude.{
  ℕ, ◌<◌, ◌≡◌, sym, ap, subst, ◌∙◌, false, Option, none, some, List, [], ◌∷◌, ◌++◌, arith, ◌==◌,
  All,
}
use comp_net.Text.{Text, codes}
use comp_net.Message.{MessageEx}
use comp_net.Server.{Server, Client}
use comp_net.Server.Registry.{remove_client, remove_loop}
use comp_net.Server.Session.{
  close_socket, handshake, authenticate, append_server_record, leave, serve_authenticated,
  serve_welcomed, handle_client,
}
use comp_net.Server.Frame.{broadcast_server_info-Quiet}
use comp_net.Server.Steps.{◌▸◌}
use comp_net.Server.Steps.Connection.{greet-Trace, serve_loop-Trace, append_server_record-Trace}
use comp_net.Server.Ends.{
  Still, Still-trans, Still-Quiet, Trace-Still, IsOver, Phase, IsOver-after, handshake-Phase,
  IsAdmitted, AuthPhase, authenticate-AuthPhase,
}

-- A client on another socket.
pub record IsOther (sock : ℕ) (s : Server) (ref : ℕ) : Type 0 where
  pub made : ref < s.next_ref
  pub other : ((s.heap ref).sock == sock) ≡ false

remove_loop-append :
    (sock : ℕ) (heap : ℕ → Client) (refs : List ℕ) (last : ℕ)
    → All (λ ref. ((heap ref).sock == sock) ≡ false) refs
    → (heap last).sock ≡ sock
    → remove_loop sock heap (refs ++ last ∷ []) ≡ refs
unfolding remove_loop
remove_loop-append sock heap [] last h e = ground arith
remove_loop-append sock heap (ref ∷ refs) last h e =
    rw h.0 (ap (◌∷◌ ref) (remove_loop-append sock heap refs last h.1 e))

others-stay :
    (sock : ℕ) (s t : Server) (refs : List ℕ)
    → ((ref : ℕ) → ref < s.next_ref → (t.heap ref).sock ≡ (s.heap ref).sock)
    → All (IsOther sock s) refs
    → All (λ ref. ((t.heap ref).sock == sock) ≡ false) refs
others-stay sock s t [] keep h = tt
others-stay sock s t (ref ∷ refs) keep h =
    (rw (keep ref h.0.made) h.0.other, others-stay sock s t refs keep h.1)

-- The end of an authenticated connection undoes its admission.
leave-IsOver :
    (sock : ℕ) (nickname : Text) (s t : Server)
    → All (IsOther sock s) s.clients
    → IsAdmitted sock s t
    → IsOver sock s (leave sock nickname t)
unfolding leave
leave-IsOver sock nickname s t fresh a =
    let left = codes "User [" ++ nickname ++ codes "] disconnected" in
    let gone = close_socket sock (remove_client sock t) in
    let recorded = append_server_record left gone in
    let calm =
      Still-trans gone recorded _ (Trace-Still (append_server_record-Trace left gone))
        (Still-Quiet recorded _ (broadcast_server_info-Quiet left recorded)) in
    record {
      closed = calm.closed ∙ unfold close_socket remove_client in ap (λ c. c ++ sock ∷ []) a.closed;
      clients =
          calm.clients
          ∙ unfold close_socket remove_client in
            rw a.clients (
              remove_loop-append sock t.heap s.clients s.next_ref
                (others-stay sock s t s.clients a.others fresh) a.own);
    }

IsAdmitted-Still :
    (sock : ℕ) (s t u : Server) → IsAdmitted sock s t → Still t u → IsAdmitted sock s u
IsAdmitted-Still sock s t u a p = record {
  closed = p.closed ∙ a.closed;
  clients = p.clients ∙ a.clients;
  own = p.socks s.next_ref ∙ a.own;
  others = λ ref h. p.socks ref ∙ a.others ref h;
}

serve_authenticated-IsOver :
    (sock : ℕ) (session : Option (ℕ × Text × List MessageEx)) (s t : Server)
    → All (IsOther sock s) s.clients
    → AuthPhase sock s (session, t)
    → IsOver sock s (serve_authenticated sock session t)
unfolding serve_authenticated
serve_authenticated-IsOver sock none s t fresh h = h
serve_authenticated-IsOver sock (some (ref, nickname, frames)) s t fresh h =
    leave-IsOver sock nickname s _ fresh (
      IsAdmitted-Still sock s t _ h
        (Trace-Still (greet-Trace sock ref nickname t ▸ serve_loop-Trace sock ref frames _)))

IsOther-Still :
    (sock : ℕ) (s t : Server) (refs : List ℕ)
    → Still s t
    → All (IsOther sock s) refs
    → All (IsOther sock t) refs
IsOther-Still sock s t [] p h = tt
IsOther-Still sock s t (ref ∷ refs) p h = (
  record { made = rw p.next_ref h.0.made; other = rw (p.socks ref) h.0.other },
  IsOther-Still sock s t refs p h.1,
)

serve_welcomed-IsOver :
    (sock : ℕ) (opened : Option (List MessageEx)) (s t : Server)
    → All (IsOther sock s) s.clients
    → Phase sock s (opened, t)
    → IsOver sock s (serve_welcomed sock opened t)
unfolding serve_welcomed
serve_welcomed-IsOver sock none s t fresh h = h
serve_welcomed-IsOver sock (some frames) s t fresh h = IsOver-after sock s t _ h (
    serve_authenticated-IsOver sock (authenticate sock frames t).0 t (authenticate sock frames t).1
      (subst (All (IsOther sock t)) (sym h.clients) (IsOther-Still sock s t s.clients h fresh))
      (authenticate-AuthPhase sock frames t))

-- Whatever the client sends, and wherever the connection breaks off, `handleClient` closes its
-- socket exactly once and no other one, and leaves the registry as it found it. At the start no
-- other client may be on the socket.
pub handle_client-IsOver :
    (sock : ℕ) (frames : List MessageEx) (s : Server)
    → All (IsOther sock s) s.clients
    → IsOver sock s (handle_client sock frames s)
unfolding handle_client
handle_client-IsOver sock frames s fresh =
    serve_welcomed-IsOver sock (handshake sock frames s).0 s (handshake sock frames s).1 fresh
      (handshake-Phase sock frames s)
