-- ===== src/Launcher/Script/Fuel.antt =====
-- The loop of replay_script over its file, src/Launcher/main.cpp.
use serena_de.Launcher.Script.{ScriptApi, InputChannels}
use serena_de.Launcher.Script.Lines.{
  get_line, read_line, run_line, then_rest, replay_lines, replay_script,
}
use serena_de.Prelude.{ℕ, zero, suc, ◌≤◌, ◌≡◌, refl, ap, List, [], ◌∷◌, length, arith}

get_line-le : (n : ℕ) (file : List ℕ) → length (get_line n file).1 ≤ length file
unfolding get_line
get_line-le zero file = (omega arith)
get_line-le (suc n) [] = (omega arith)
get_line-le (suc n) (c ∷ cs) = let shorter = get_line-le n cs in ground arith

pub get_line-lt : (n c : ℕ) (cs : List ℕ) → length (get_line (suc n) (c ∷ cs)).1 ≤ length cs
unfolding get_line
get_line-lt n c cs = let shorter = get_line-le n cs in ground arith

replay_lines-congr :
    (api : ScriptApi) (ch : InputChannels) (f g : ℕ) (file line : List ℕ)
    → length file ≤ f
    → length file ≤ g
    → replay_lines api ch f file line ≡ replay_lines api ch g file line
unfolding replay_lines
replay_lines-congr api ch f g [] line hf hg = refl
replay_lines-congr api ch zero g (c ∷ cs) line hf hg = absurd (omega arith)
replay_lines-congr api ch (suc f) zero (c ∷ cs) line hf hg = absurd (omega arith)
replay_lines-congr api ch (suc f) (suc g) (c ∷ cs) line hf hg =
    let shorter = get_line-lt 510 c cs in
    let chunk = get_line 511 (c ∷ cs) in
    let next = read_line chunk.0 line in
    ap (then_rest (run_line api ch next))
      (replay_lines-congr api ch f g chunk.1 next (omega arith) (omega arith))

-- With at least as much fuel as the file has bytes the loop never stops for lack of it: every such
-- amount of fuel gives what the file's own length gives.
pub replay_lines-replay_script :
    (api : ScriptApi) (ch : InputChannels) (fuel : ℕ) (file line : List ℕ)
    → length file ≤ fuel
    → replay_lines api ch fuel file line ≡ replay_script api ch file line
replay_lines-replay_script api ch fuel file line h =
    replay_lines-congr api ch fuel (length file) file line h (omega arith)
