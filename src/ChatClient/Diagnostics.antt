-- ===== src/ChatClient/Diagnostics.antt =====
-- The statistics of the pings in LAB6/client.cpp: `getNetDiagSnapshot`, `saveNetDiagToFile`,
-- `printNetDiag`.
use comp_net.Prelude.{ℕ, ◌*◌, List, [], ◌∷◌, ◌++◌, map, ltb, ◌==◌, if◌then◌else◌, length, is_empty}
use comp_net.Text.{Text, codes}
use comp_net.Text.Number.{ℤ, pos, print_nat}
use comp_net.ChatClient.{ChatClient, Diag, Quotient, NetDiagSnapshot, ◌+ℤ◌}
use comp_net.ChatClient.Output.{print}

unfoldable pub sum : List ℤ → ℤ
sum [] = pos 0
sum (x ∷ xs) = x +ℤ sum xs

zero_quotient : Quotient
zero_quotient = record { numerator = pos 0; denominator = 1 }

-- The sum through the number, or 0.0 for none.
unfoldable pub average : List ℤ → Quotient
unfolding zero_quotient
average xs =
    if is_empty xs then zero_quotient else record { numerator = sum xs; denominator = length xs }

unfoldable pub get_net_diag_snapshot : Diag → NetDiagSnapshot
get_net_diag_snapshot d = record {
  requested = d.requested;
  received = d.received;
  lost = d.lost;
  avg_rtt = average d.rtts;
  avg_jitter = average (map pos d.jitters);
}

-- The loss in per cent.
unfoldable pub loss_percent : NetDiagSnapshot → Quotient
unfolding zero_quotient
loss_percent snap =
    if ltb 0 snap.requested
    then record { numerator = pos (100 * snap.lost); denominator = snap.requested }
    else zero_quotient

unfoldable pub render_net_diag : (ℕ → Quotient → Text) → Text → NetDiagSnapshot → Text
render_net_diag fixed nickname snap =
    codes "{\n"
    ++ codes "  \"nickname\": \""
    ++ nickname
    ++ codes "\",\n"
    ++ codes "  \"requested\": "
    ++ print_nat snap.requested
    ++ codes ",\n"
    ++ codes "  \"received\": "
    ++ print_nat snap.received
    ++ codes ",\n"
    ++ codes "  \"lost\": "
    ++ print_nat snap.lost
    ++ codes ",\n"
    ++ codes "  \"rtt_avg_ms\": "
    ++ fixed 2 snap.avg_rtt
    ++ codes ",\n"
    ++ codes "  \"jitter_avg_ms\": "
    ++ fixed 2 snap.avg_jitter
    ++ codes ",\n"
    ++ codes "  \"loss_percent\": "
    ++ fixed 2 (loss_percent snap)
    ++ codes "\n"
    ++ codes "}\n"

unfoldable pub save_net_diag_to_file : NetDiagSnapshot → ChatClient → ChatClient
save_net_diag_to_file snap s = record s { diag_file = render_net_diag s.os.fixed s.nickname snap }

unfoldable pub print_net_diag : ChatClient → ChatClient
print_net_diag s =
    let snap = get_net_diag_snapshot s.diag in
    let lines =
      codes "RTT avg : "
      ++ s.os.fixed 1 snap.avg_rtt
      ++ codes " ms\n"
      ++ codes "Jitter  : "
      ++ s.os.fixed 1 snap.avg_jitter
      ++ codes " ms\n"
      ++ codes "Loss    : "
      ++ s.os.fixed 1 (loss_percent snap)
      ++ codes "%\n" in
    if snap.requested == 0
    then print (codes "No ping statistics yet. Use /ping or /ping N first.\n") s
    else print (codes "Saved to net_diag_" ++ s.nickname ++ codes ".json\n")
        (save_net_diag_to_file snap (print lines s))
