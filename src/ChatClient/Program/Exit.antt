-- ===== src/ChatClient/Program/Exit.antt =====
-- How LAB6/client.cpp ends.
use comp_net.Prelude.{
  ◌≡◌, refl, sym, ap, subst, inl, inr, Bool, true, false, Option, none, some, List, [], ◌∷◌, ◌++◌,
  append_assoc, arith, if◌then◌else◌, Bool-cases, is_empty,
}
use comp_net.Text.{Text, codes}
use comp_net.Text.Trim.{trim}
use comp_net.Message.{MessageEx}
use comp_net.ChatClient.{ChatClient}
use comp_net.ChatClient.Output.{print}
use comp_net.ChatClient.Connect.{connect_and_authorize}
use comp_net.ChatClient.Commands.{
  Next, stays, reconnects, quits, handle_line, input_loop, reconnect,
}
use comp_net.ChatClient.Commands.Lines.{IsQuitLine, input_loop_quits}
use comp_net.ChatClient.Program.{Link, Exit, continue, main_loop, main}

-- One of the lines is `/quit`, up to white space.
abbrev pub HasQuit : List Text → Type 0
HasQuit lines =
    (before : List Text) × (line : Text) × (after : List Text) × (lines ≡ before ++ line ∷ after)
    × IsQuitLine line

HasQuit-append : (front lines : List Text) → HasQuit lines → HasQuit (front ++ lines)
HasQuit-append front lines (before, line, after, split, quit) =
    (front ++ before, line, after, rw split (sym (append_assoc front before (line ∷ after))), quit)

-- The lines that are left are the last ones.
Ends : List Text → List Text → Type 0
Ends lines left = (front : List Text) × (lines ≡ front ++ left)

picked :
    (next : Next) (running : Bool) (more : Bool × List Text × ChatClient) (line : Text)
    (lines : List Text) (s t : ChatClient)
    → Ends lines more.1
    → (let result : Bool × List Text × ChatClient =
          if running
          then elim next [
            | stays ↦ more
            | reconnects ↦ (false, lines, t)
            | quits ↦ (true, lines, t)
          ]
          else (false, line ∷ lines, s) in
        Ends (line ∷ lines) result.1)
unfolding Ends
picked stays true more line lines s t (front, split) = (line ∷ front, ap (◌∷◌ line) split)
picked reconnects true more line lines s t h = (line ∷ [], refl)
picked quits true more line lines s t h = (line ∷ [], refl)
picked next false more line lines s t h = ([], refl)

input_loop-Ends : (lines : List Text) (s : ChatClient) → Ends lines (input_loop lines s).1
unfolding input_loop Ends
input_loop-Ends [] s = ([], refl)
input_loop-Ends (line ∷ lines) s =
    let done = handle_line line s in
    picked done.0 s.running (input_loop lines done.1) line lines s done.1
      (input_loop-Ends lines done.1)

-- An exit with code 0 comes from what follows, and not from a failed connection.
continue-zero :
    (r : Option (Option (List MessageEx) × ChatClient)) (go : ChatClient → Exit) (t : ChatClient)
    → continue r go ≡ some (0, t)
    → (s : ChatClient) × (go s ≡ some (0, t))
unfolding continue
continue-zero none go t h = ground arith
continue-zero (some (none, s)) go t h = ground arith
continue-zero (some (some frames, s)) go t h = (s, h)

main_loop-HasQuit :
    (links : List Link) (lines : List Text) (s t : ChatClient)
    → main_loop links lines s ≡ some (0, t)
    → HasQuit lines
unfolding main_loop Ends
main_loop-HasQuit [] lines s t h = ground arith
main_loop-HasQuit (link ∷ links) lines s t h =
    let result = input_loop lines (record s { running = true }) in
    elim (Bool-cases result.0) [
      | inl e ↦ input_loop_quits lines (record s { running = true }) e
      | inr e ↦
          (let on = rw (main_loop, e) at h in
            let (u, later) =
              continue-zero (reconnect link.attempts link.frames result.2)
                (main_loop links result.1) t on in
            let (front, split) = input_loop-Ends lines (record s { running = true }) in
            subst HasQuit (sym split)
              (HasQuit-append front result.1 (main_loop-HasQuit links result.1 u t later)))
    ]

-- The program ends with exit code 0 only by `/quit`: if `main` returns 0, one of the lines that the
-- user typed is that, up to white space, however often the client reconnected before. An empty
-- nickname, a refused connection and the end of the input do not lead to exit code 0.
pub main-HasQuit :
    (line : Text) (link : Link) (links : List Link) (lines : List Text) (s t : ChatClient)
    → main line link links lines s ≡ some (0, t)
    → HasQuit lines
unfolding main
main-HasQuit line link links lines s t h = elim (Bool-cases (is_empty (trim line))) [
  | inl e ↦ ground (arith, rw (main, e) at h)
  | inr e ↦
      let asked = print (codes "Enter nickname: ") s in
      let named = record asked { nickname = trim line } in
      let (u, later) =
        continue-zero (connect_and_authorize link.attempts link.frames named)
          (main_loop links lines) t (rw (main, e) at h) in
      main_loop-HasQuit links lines u t later
]
