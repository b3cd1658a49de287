-- ===== src/Launcher/Logs/Dump.antt =====
-- How much of a log dump_failure_logs of src/Launcher/main.cpp shows.
use mathlib.Core.List.{append-nil, append_assoc}
use serena_de.CString.Search.{Differs, c_string-clean}
use serena_de.Launcher.Logs.{cap, dump_lines, dump_log}
use serena_de.Launcher.Script.Fuel.{get_line-lt}
use serena_de.Launcher.Script.Lines.{get_line}
use serena_de.Prelude.{
  ℕ, zero, suc, ◌+◌, ◌≤◌, ◌<◌, ◌≡◌, refl, sym, ap, ◌∙◌, List, [], ◌∷◌, ◌++◌, length, ltb, All,
  All-append_left, All-append_right, length-append, Bool-cases, inl, inr, arith, subst, ltb→lt,
  ◌==◌,
}

get_line-append : (n : ℕ) (file : List ℕ) → (get_line n file).0 ++ (get_line n file).1 ≡ file
unfolding get_line
get_line-append zero file = refl
get_line-append (suc n) [] = refl
get_line-append (suc n) (c ∷ cs) = elim (Bool-cases (c == 10)) [
  | inl e ↦ rw e refl
  | inr e ↦ rw e (ap (λ r. c ∷ r) (get_line-append n cs))
]

length-get_line : (n : ℕ) (file : List ℕ) → length (get_line n file).0 ≤ n
unfolding get_line
length-get_line zero file = omega arith
length-get_line (suc n) [] = omega arith
length-get_line (suc n) (c ∷ cs) = let shorter = length-get_line n cs in ground arith

-- What is shown is the front of the rest of the log, it goes over the cap by less than a line, and it
-- is all of it if the cap is not reached.
IsShown : ℕ → List ℕ → List ℕ → Type 0
IsShown dumped file out =
    (rest : List ℕ) × (file ≡ out ++ rest)
    × (dumped < cap + 4095 → dumped + length out < cap + 4095)
    × (dumped + length out < cap → rest ≡ [])

-- A line more in front.
IsShown-line :
    (dumped : ℕ) (file a b out : List ℕ)
    → a ++ b ≡ file
    → length a ≤ 4095
    → dumped < cap
    → IsShown (dumped + length a) b out
    → IsShown dumped file (a ++ out)
unfolding IsShown
IsShown-line dumped file a b out e short room (rest, split, bound, whole) =
    let lengths : length (a ++ out) ≡ length a + length out = length-append a out in
    (
      rest,
      sym e ∙ ap (λ r. a ++ r) split ∙ sym (append_assoc a out rest),
      (λ k. omega (arith, lengths, bound (omega arith))),
      (λ k. whole (omega (arith, lengths))),
    )

dump_lines-IsShown :
    (fuel dumped : ℕ) (file : List ℕ)
    → length file ≤ fuel
    → All (Differs 0) file
    → IsShown dumped file (dump_lines fuel dumped file)
unfolding dump_lines IsShown
dump_lines-IsShown zero dumped [] h clean = ([], refl, (λ k. omega arith), (λ k. refl))
dump_lines-IsShown zero dumped (c ∷ cs) h clean = absurd (omega arith)
dump_lines-IsShown (suc fuel) dumped [] h clean = ([], refl, (λ k. omega arith), (λ k. refl))
dump_lines-IsShown (suc fuel) dumped (c ∷ cs) h clean = elim (Bool-cases (ltb dumped cap)) [
  | inr full ↦ rw full (c ∷ cs, refl, (λ k. omega arith), (λ k. absurd (ground arith)))
  | inl room ↦
      let a = (get_line 4095 (c ∷ cs)).0 in
      let b = (get_line 4095 (c ∷ cs)).1 in
      let e : a ++ b ≡ c ∷ cs = get_line-append 4095 (c ∷ cs) in
      let both : All (Differs 0) (a ++ b) = subst (All (Differs 0)) (sym e) clean in
      let shorter = get_line-lt 4094 c cs in
      rw room (
        subst (λ w. IsShown dumped (c ∷ cs) (w ++ dump_lines fuel (dumped + length w) b))
          (sym (c_string-clean a (All-append_left (Differs 0) a b both)))
          (IsShown-line dumped (c ∷ cs) a b _ e (length-get_line 4095 (c ∷ cs)) (ltb→lt _ _ room) (
            dump_lines-IsShown fuel (dumped + length a) b (omega arith)
              (All-append_right (Differs 0) a b both))))
]

-- Of a log without NULs its front is shown: at most 4094 bytes more than 32 KiB, and the log whole
-- unless 32 KiB are reached, in which case the program says that it is truncated.
pub dump_log-IsFront :
    (file : List ℕ)
    → All (Differs 0) file
    → (rest : List ℕ) × (file ≡ dump_log file ++ rest)
      × (length (dump_log file) < cap + 4095)
      × (length (dump_log file) < cap → dump_log file ≡ file)
unfolding dump_log IsShown
dump_log-IsFront file clean =
    let (rest, split, bound, whole) = dump_lines-IsShown (length file) 0 file (omega arith) clean in
    (
      rest,
      split,
      omega (arith, bound (omega arith)),
      (λ k. sym (
          split ∙ ap (λ r. dump_log file ++ r) (whole (omega arith)) ∙ append-nil (dump_log file))),
    )
