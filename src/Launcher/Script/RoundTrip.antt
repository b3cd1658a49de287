-- ===== src/Launcher/Script/RoundTrip.antt =====
-- replay_script of src/Launcher/main.cpp on printed scripts.
use mathlib.Core.List.{append_assoc}
use serena_de.Launcher.Script.{ScriptApi, InputChannels}
use serena_de.Launcher.Script.Lines.{
  run_line, get_line, strip, read_line, then_rest, replay_lines, replay_script,
}
use serena_de.Launcher.Script.Scanning.{run_line-does}
use serena_de.Launcher.Script.Printing.{
  Command, line_of, script_of, does, does_all, IsWritable, IsClean, line_of-IsClean, line_of-lt,
}
use serena_de.Prelude.{
  ℕ, zero, suc, ◌≤◌, ◌<◌, ◌≡◌, refl, ap, ◌∙◌, List, [], ◌∷◌, ◌++◌, drop, All, length, length-append,
  arith, ne→==_false,
}

get_line-line :
    (n : ℕ) (s rest : List ℕ)
    → All IsClean s
    → length s < n
    → get_line n (s ++ 10 ∷ rest) ≡ (s ++ 10 ∷ [], rest)
unfolding get_line
get_line-line zero s rest h l = absurd (omega arith)
get_line-line (suc n) [] rest h l = refl
get_line-line (suc n) (c ∷ cs) rest (h, hs) l =
    rw (ne→==_false c 10 (omega arith), get_line-line n cs rest hs (omega arith)) refl

strip-line : (s rest : List ℕ) → All IsClean s → strip (s ++ 10 ∷ rest) ≡ s ++ 0 ∷ rest
unfolding strip
strip-line [] rest h = refl
strip-line (c ∷ cs) rest (h, hs) =
    rw
      (
        ne→==_false c 0 (omega arith),
        ne→==_false c 13 (omega arith),
        ne→==_false c 10 (omega arith),
        strip-line cs rest hs,
      )
      refl

-- The buffer holds the line and, behind its end, what is of no matter.
read_line-line :
    (s old : List ℕ)
    → All IsClean s
    → (tail : List ℕ) × (read_line (s ++ 10 ∷ []) old ≡ s ++ 0 ∷ tail)
read_line-line s old h =
    let behind = drop (length ((s ++ 10 ∷ []) ++ 0 ∷ [])) old in
    (
      0 ∷ behind,
      ap strip (append_assoc (s ++ 10 ∷ []) (0 ∷ []) behind ∙ append_assoc s (10 ∷ []) (0 ∷ behind))
          ∙ strip-line s (0 ∷ behind) h,
    )

module _ (api : ScriptApi) (ch : InputChannels) where
  replay_lines-turn :
      (fuel : ℕ) (s rest old : List ℕ)
      → let chunk = get_line 511 (s ++ 10 ∷ rest) in
        let next = read_line chunk.0 old in
        replay_lines api ch (suc fuel) (s ++ 10 ∷ rest) old
        ≡ then_rest (run_line api ch next) (replay_lines api ch fuel chunk.1 next)
  unfolding replay_lines
  replay_lines-turn fuel [] rest old = refl
  replay_lines-turn fuel (c ∷ s) rest old = refl

  replay_lines-does_all :
      (cs : List Command) (fuel : ℕ) (old : List ℕ)
      → All IsWritable cs
      → length (script_of cs) ≤ fuel
      → replay_lines api ch fuel (script_of cs) old ≡ does_all api ch cs
  unfolding replay_lines
  replay_lines-does_all [] fuel old w l = refl
  replay_lines-does_all (c ∷ cs) zero old w l =
      absurd (omega (arith, l, length-append (line_of c) (10 ∷ script_of cs)))
  replay_lines-does_all (c ∷ cs) (suc fuel) old (w, ws) l =
      let clean = line_of-IsClean c w in
      let chunk = get_line-line 511 (line_of c) (script_of cs) clean (line_of-lt c w) in
      let (tail, next) = read_line-line (line_of c) old clean in
      let shorter = length-append (line_of c) (10 ∷ script_of cs) in
      replay_lines-turn fuel (line_of c) (script_of cs) old
      ∙ ap
          (λ k.
            then_rest (run_line api ch (read_line k.0 old))
              (replay_lines api ch fuel k.1 (read_line k.0 old)))
          chunk
      ∙ ap (λ k. then_rest (run_line api ch k) (replay_lines api ch fuel (script_of cs) k)) next
      ∙ ap (λ r. then_rest r (replay_lines api ch fuel (script_of cs) (line_of c ++ 0 ∷ tail)))
          (run_line-does api ch c w tail)
      ∙ ap (then_rest (does api ch c))
          (replay_lines-does_all cs fuel (line_of c ++ 0 ∷ tail) ws (omega (arith, l, shorter)))

-- A script that is printed from commands, one on each line, replays to what the commands are to do, one
-- after the other, up to the first key that has no code, whatever the line buffer held before. Numbers
-- fit an `int`; the name of a key has 1 to 31 bytes, none of them blank or a control
-- character.
pub replay_script-script_of :
    (api : ScriptApi) (ch : InputChannels) (cs : List Command) (old : List ℕ)
    → All IsWritable cs
    → replay_script api ch (script_of cs) old ≡ does_all api ch cs
replay_script-script_of api ch cs old w =
    replay_lines-does_all api ch cs (length (script_of cs)) old w (omega arith)
