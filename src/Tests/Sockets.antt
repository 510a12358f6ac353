-- ===== src/Tests/Sockets.antt =====
-- The theorems on sockets and the simulation at concrete data.
use comp_net.Prelude.{ℕ, min, [], arith, replicate, length-replicate}
use comp_net.Text.{codes}
use comp_net.Transport.{IsPosix, send_all, recv_all}
use comp_net.Transport.Complete.{Accounts, Fills, send_all-Accounts, recv_all-Fills}
use comp_net.Message.{msg_text}
use comp_net.Message.Sealed.{fill_message-IsSealed}
use comp_net.Server.{Double, Server}
use comp_net.Server.NetSim.{apply_network_simulation}
use comp_net.Server.NetSim.Corruption.{DrawsBelow, Outcome, apply_network_simulation-Outcome}
use comp_net.Tests.{open_socket, two_clients, message}

open_socket-IsPosix : IsPosix open_socket
open_socket-IsPosix = record {
  send_fits = λ call size n h. ground arith;
  recv_fits = λ call size bytes h. ground (arith, length-replicate {A = ℕ} (min size 3) 65);
}

send_all_example : Accounts (replicate 250 7) (send_all open_socket 0 (replicate 250 7))
send_all_example = send_all-Accounts open_socket 0 (replicate 250 7)

recv_all_example : Fills 8 (recv_all open_socket 0 8)
recv_all_example = recv_all-Fills open_socket 0 8 open_socket-IsPosix

-- A server that corrupts: the draw is below the rate.
abbrev noisy : Server
noisy = record two_clients {
  sim = record { delay_ms = 0; drop_rate = Double.units 0; corrupt_rate = Double.units 8 };
}

noisy-DrawsBelow : DrawsBelow noisy
noisy-DrawsBelow = record { below = λ call n h. h }

corruption_example :
    Outcome
      (message msg_text [] (codes "hi"))
      (apply_network_simulation (message msg_text [] (codes "hi")) noisy).0
corruption_example =
    apply_network_simulation-Outcome (message msg_text [] (codes "hi")) noisy
      (fill_message-IsSealed msg_text (codes "bob") [] (codes "hi") 8 950) noisy-DrawsBelow
