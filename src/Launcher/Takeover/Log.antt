-- ===== src/Launcher/Takeover/Log.antt =====
-- The whole child of spawn_with_takeover, src/Launcher/main.cpp, with the log on its stderr.
use serena_de.CString.{CString}
use serena_de.Launcher.Takeover.{
  Table, Socket, update, close, dup2, redirect_log, start_child, prepare_child, move_descriptors,
  group_sockets,
}
use serena_de.Launcher.Takeover.Descriptors.{Rising, AreOpen, Placed, move-Placed}
use serena_de.Launcher.Takeover.Value.{joined, append_entries_lem}
use serena_de.Prelude.{
  ℕ, ◌+◌, ◌≤◌, ◌<◌, ◌≡◌, refl, ap, ◌∙◌, List, [], ◌∷◌, none, some, length, ltb, arith,
  if◌then◌else◌, ne→==_false, ==_refl, ◌==◌, Bool-cases, inl, inr,
}

-- What a child has on its descriptors when it calls execv, of the files that the launcher had in `t`:
-- the listeners from 3 on, the log `file` on stderr and nowhere else that it was, and the launcher's
-- own stdin and stdout.
pub record Handed (t : Table) (log file : ℕ) (ls : List (ℕ × CString)) (t' : Table) : Type 0 where
  pub placed : Placed t t' 3 ls
  pub stderr_is_log : t' 2 ≡ some file
  pub log_closed : t' log ≡ none
  pub stdin_stdout : (j : ℕ) → j < 2 → t' j ≡ t j

-- A table that agrees on the places, from one that agrees on the listeners.
Placed-carry :
    (t u t' u' : Table) (next log : ℕ) (ls : List (ℕ × CString))
    → next + length ls ≤ log
    → AreOpen t ls
    → ((j : ℕ) → (file : ℕ) → t j ≡ some file → u j ≡ t j)
    → ((j : ℕ) → next ≤ j → j < log → u' j ≡ t' j)
    → Placed u t' next ls
    → Placed t u' next ls
Placed-carry t u t' u' next log [] h o same same' p = tt
Placed-carry t u t' u' next log ((fd, path) ∷ rest) h ((file, e), o) same same' (p, ps) = (
  same' next (omega arith) (omega arith) ∙ p ∙ same fd file e,
  Placed-carry t u t' u' (next + 1) log rest (omega arith) o same (λ j a b. same' j (omega arith) b)
      ps,
)

-- An open descriptor is not the free one that a log is given.
log-keeps :
    (t : Table) (log file : ℕ) → t log ≡ none → (j f : ℕ) → t j ≡ some f → update t log file j ≡ t j
log-keeps t log file free j f e = elim (Bool-cases (j == log)) [
  | inl same ↦ absurd (taken (ground arith))
  | inr other ↦ rw other refl
]
  where
    taken : j ≡ log → ⊥
    taken same = cc (e, free, ap t same)

log-AreOpen :
    (t : Table) (log file : ℕ) (ls : List (ℕ × CString))
    → t log ≡ none
    → AreOpen t ls
    → AreOpen (update t log file) ls
log-AreOpen t log file [] free o = tt
log-AreOpen t log file ((fd, path) ∷ rest) free ((f, e), o) =
    ((f, log-keeps t log file free fd f e ∙ e), log-AreOpen t log file rest free o)

-- The log is moved to stderr from where it is.
pub redirect_log-open :
    (log file : ℕ) (t : Table)
    → t log ≡ some file
    → redirect_log log t ≡ close log (update t 2 file)
unfolding redirect_log dup2
redirect_log-open log file t e = rw (e, dup2, redirect_log) refl

-- The child, if its dup2 calls leave the table `t'`.
start_child-if :
    (ss : List Socket) (log : ℕ) (t t' : Table)
    → move_descriptors ss t ≡ some t'
    → start_child ss log t
      ≡ (if ltb (length (joined ss)) 4096 then some (redirect_log log t', joined ss) else none)
unfolding start_child prepare_child
start_child-if ss log t t' run = elim (Bool-cases (ltb (length (joined ss)) 4096)) [
  | inl short ↦
      rw (start_child, prepare_child, run, prepare_child, append_entries_lem ss, short, start_child)
        refl
  | inr long ↦
      rw (start_child, prepare_child, run, prepare_child, append_entries_lem ss, long, start_child)
        refl
]

-- A group's child, when the log has a descriptor behind the places of the listeners.
pub start_child-Handed :
    (ls : List (ℕ × CString)) (t : Table) (log file : ℕ)
    → Rising 3 ls
    → AreOpen t ls
    → t log ≡ none
    → 3 + length ls ≤ log
    → let ss = group_sockets 3 ls in
      (t' : Table) × (start_child ss log (update t log file)
        ≡ (if ltb (length (joined ss)) 4096 then some (t', joined ss) else none))
      × Handed t log file ls t'
start_child-Handed ls t log file rising are_open free behind =
    let u = update t log file in
    let ss = group_sockets 3 ls in
    let (t₁, run, below, above, placed) =
      move-Placed ls 3 u rising (log-AreOpen t log file ls free are_open) in
    let at_log : t₁ log ≡ some file = above log behind ∙ rw (==_refl log) refl in
    let t' = close log (update t₁ 2 file) in
    let redirected : redirect_log log t₁ ≡ t' = redirect_log-open log file t₁ at_log in
    let same' : (j : ℕ) → 3 ≤ j → j < log → t' j ≡ t₁ j =
      λ j a b. rw (ne→==_false j log (omega arith), ne→==_false j 2 (omega arith)) refl in
    (
      t',
      rw redirected at (start_child-if ss log u t₁ run),
      record {
        placed =
            Placed-carry t u t₁ t' 3 log ls behind are_open (log-keeps t log file free) same'
              placed;
        stderr_is_log = rw (ne→==_false 2 log (omega arith)) refl;
        log_closed = rw (==_refl log) refl;
        stdin_stdout = λ j h.
            rw (ne→==_false j log (omega arith), ne→==_false j 2 (omega arith))
              (below j (omega arith) ∙ rw (ne→==_false j log (omega arith)) refl);
      },
    )
