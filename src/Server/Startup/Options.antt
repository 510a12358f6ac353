-- ===== src/Server/Startup/Options.antt =====
-- What the options of LAB6/server.cpp can make of the simulation, and what a start makes of the
-- history.
use comp_net.Prelude.{
  ℕ, ◌+◌, ◌-◌, ◌%◌, ◌^◌, ◌≤◌, ◌<◌, min, ◌≡◌, refl, inl, inr, Bool, Option, some, List, [], ◌∷◌,
  ◌++◌, arith, ltb, ltb→lt, Bool-cases, drop, All,
}
use comp_net.Text.{Text, codes}
use comp_net.Text.Number.{read_digits, atoi, atoi_signed, to_int}
use comp_net.Text.Trim.{drop_spaces}
use comp_net.Text.Search.{starts_with}
use comp_net.Message.{word}
use comp_net.Server.{Server, HistoryRecord, Double, NetSimConfig}
use comp_net.Server.Startup.{one, clamp, max_zero, parse_arg, parse_args, open_server, main}
use comp_net.Server.History.{render_history}
use comp_net.Server.Loading.Restart.{
  Fits, pending, largest_id, load_history_from_file-render_history,
}

-- From 0 to 1, or not a number, if `atof` reads that from some text.
abbrev pub IsRate : (Text → Double) → Double → Type 0
IsRate atof Double.below = ⊥
IsRate atof (Double.units n) = n ≤ one
IsRate atof Double.nan = (s : Text) × (atof s ≡ Double.nan)

-- The rates are such, and the delay is an `int` that is not negative.
abbrev pub InRange : (Text → Double) → NetSimConfig → Type 0
InRange atof sim =
    (sim.delay_ms < 2 ^ 31) × IsRate atof sim.drop_rate × IsRate atof sim.corrupt_rate

clamp_cases : (atof : Text → Double) (s : Text) (d : Double) → atof s ≡ d → IsRate atof (clamp d)
unfolding clamp
clamp_cases atof s Double.below e = omega arith
clamp_cases atof s (Double.units n) e = elim (Bool-cases (ltb one n)) [
  | inl big ↦ rw big (omega arith)
  | inr small ↦ rw small (ground arith)
]
clamp_cases atof s Double.nan e = (s, e)

clamp-IsRate : (atof : Text → Double) (s : Text) → IsRate atof (clamp (atof s))
clamp-IsRate atof s = clamp_cases atof s (atof s) refl

max_zero-to_int : (n : ℕ) → max_zero (to_int n) < 2 ^ 31
unfolding max_zero to_int
max_zero-to_int n = elim (Bool-cases (ltb (n % 2 ^ 32) (2 ^ 31))) [
  | inl e ↦ rw e (ltb→lt (n % 2 ^ 32) (2 ^ 31) e)
  | inr e ↦ rw e (omega arith)
]

max_zero-atoi_signed : (s : Text) → max_zero (atoi_signed s) < 2 ^ 31
unfolding atoi_signed
max_zero-atoi_signed [] = max_zero-to_int 0
max_zero-atoi_signed (c ∷ s) = ground (
  arith,
  max_zero-to_int (2 ^ 64 - min (2 ^ 63) (read_digits 0 s)),
  max_zero-to_int (min (2 ^ 63 - 1) (read_digits 0 s)),
  max_zero-to_int (min (2 ^ 63 - 1) (read_digits 0 (c ∷ s))),
)

parse_arg-InRange :
    (atof : Text → Double) (arg : Text) (sim : NetSimConfig)
    → InRange atof sim
    → InRange atof (parse_arg atof arg sim)
unfolding parse_arg atoi
parse_arg-InRange atof arg sim h = elim (Bool-cases (starts_with (codes "--delay=") arg)) [
  | inl e ↦ rw e (max_zero-atoi_signed (drop_spaces (drop 8 arg)), h.1, h.2)
  | inr e ↦ elim (Bool-cases (starts_with (codes "--drop=") arg)) [
    | inl f ↦ rw (e, f) (h.0, clamp-IsRate atof (drop 7 arg), h.2)
    | inr f ↦ elim (Bool-cases (starts_with (codes "--corrupt=") arg)) [
      | inl g ↦ rw (e, f, g) (h.0, h.1, clamp-IsRate atof (drop 10 arg))
      | inr g ↦ rw (e, f, g) h
    ]
  ]
]

-- Whatever the arguments are, and whatever `atof` reads from them, no rate is below 0 or above 1, and
-- the delay is an `int` that is not negative, if it was so before; and no rate is NaN, unless `atof`
-- reads that from some text.
pub parse_args-InRange :
    (atof : Text → Double) (args : List Text) (sim : NetSimConfig)
    → InRange atof sim
    → InRange atof (parse_args atof args sim)
unfolding parse_args
parse_args-InRange atof [] sim h = h
parse_args-InRange atof (arg ∷ args) sim h =
    parse_args-InRange atof args (parse_arg atof arg sim) (parse_arg-InRange atof arg sim h)

-- On a file that `saveHistoryLocked` has written, with numbers that fit their types, `main` does not
-- crash, whatever its arguments are: what it opens is a server with that history, with the
-- messages not delivered in the offline queue and the next id above the largest.
pub main-render_history :
    (atof : Text → Double) (args : List Text) (recs : List HistoryRecord) (socket : Option ℕ)
    (bound listens : Bool) (s : Server)
    → All Fits recs
    → main atof args (some (render_history recs)) socket bound listens s
      ≡ open_server socket bound listens (record s {
        sim = parse_args atof args s.sim;
        history_file = render_history recs;
        history_records = s.history_records ++ recs;
        offline_queue = s.offline_queue ++ pending recs;
        next_msg_id = (largest_id recs 0 + 1) % word;
      })
unfolding main
main-render_history atof args recs socket bound listens s h =
    let sim = parse_args atof args s.sim in
    rw (main, load_history_from_file-render_history recs (record s { sim = sim }) h) refl
