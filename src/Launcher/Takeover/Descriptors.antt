-- ===== src/Launcher/Takeover/Descriptors.antt =====
-- The dup2 calls of spawn_with_takeover, src/Launcher/main.cpp.
use serena_de.CString.{CString}
use serena_de.Launcher.Takeover.{Table, update, dup2, Socket, move_descriptors, group_sockets}
use serena_de.Prelude.{
  ℕ, ◌+◌, ◌≤◌, ◌<◌, ◌≡◌, refl, sym, ◌∙◌, List, [], ◌∷◌, some, length, ne→==_false, ==_refl, arith,
}

-- Listeners in the order in which they were opened: each number is above the one before it, and
-- the first is at least `low`.
abbrev pub Rising : ℕ → List (ℕ × CString) → Type 0
Rising low [] = Unit
Rising low ((fd, path) ∷ rest) = (low ≤ fd) × Rising (fd + 1) rest

-- All listeners are open.
abbrev pub AreOpen : Table → List (ℕ × CString) → Type 0
AreOpen t [] = Unit
AreOpen t ((fd, path) ∷ rest) = ((file : ℕ) × (t fd ≡ some file)) × AreOpen t rest

-- Descriptor `next + m` is the file that the m-th listener was in `t`.
abbrev pub Placed : Table → Table → ℕ → List (ℕ × CString) → Type 0
Placed t t' next [] = Unit
Placed t t' next ((fd, path) ∷ rest) = (t' next ≡ t fd) × Placed t t' (next + 1) rest

pub Rising-mono :
    (low low' : ℕ) (ls : List (ℕ × CString)) → low' ≤ low → Rising low ls → Rising low' ls
Rising-mono low low' [] h r = tt
Rising-mono low low' ((fd, path) ∷ rest) h (r, rs) = (omega arith, rs)

-- A write below the listeners changes none of them.
AreOpen-update :
    (t : Table) (at file low : ℕ) (ls : List (ℕ × CString))
    → at < low
    → Rising low ls
    → AreOpen t ls
    → AreOpen (update t at file) ls
AreOpen-update t at file low [] h r o = tt
AreOpen-update t at file low ((fd, path) ∷ rest) h (r, rs) ((f, e), o) = (
  (f, rw (ne→==_false fd at (omega arith)) e),
  AreOpen-update t at file (fd + 1) rest (omega arith) rs o,
)

Placed-update :
    (t t' : Table) (at file low next : ℕ) (ls : List (ℕ × CString))
    → at < low
    → Rising low ls
    → Placed (update t at file) t' next ls
    → Placed t t' next ls
Placed-update t t' at file low next [] h r p = tt
Placed-update t t' at file low next ((fd, path) ∷ rest) h (r, rs) (e, p) = (
  rw (ne→==_false fd at (omega arith)) at e,
  Placed-update t t' at file (fd + 1) (next + 1) rest (omega arith) rs p,
)

move-step :
    (s : Socket) (ss : List Socket) (t : Table) (file : ℕ)
    → t s.listener_fd ≡ some file
    → move_descriptors (s ∷ ss) t ≡ move_descriptors ss (update t s.takeover_fd file)
unfolding move_descriptors dup2
move-step s ss t file e = rw (e, move_descriptors, dup2)

-- From a table with the listeners open, at or above `next`, the loop succeeds, leaves what is below
-- `next` or behind the listeners' places alone and places every listener.
pub move-Placed :
    (ls : List (ℕ × CString)) (next : ℕ) (t : Table)
    → Rising next ls
    → AreOpen t ls
    → (t' : Table) × (move_descriptors (group_sockets next ls) t ≡ some t')
      × ((j : ℕ) → j < next → t' j ≡ t j)
      × ((j : ℕ) → next + length ls ≤ j → t' j ≡ t j)
      × Placed t t' next ls
unfolding move_descriptors group_sockets
move-Placed [] next t r o = (t, refl, (λ j h. refl), (λ j h. refl), tt)
move-Placed ((fd, path) ∷ rest) next t (r, rs) ((file, e), o) =
    let (t', run, below, above, placed) =
      move-Placed rest (next + 1) (update t next file)
        (Rising-mono (fd + 1) (next + 1) rest (omega arith) rs)
        (AreOpen-update t next file (fd + 1) rest (omega arith) rs o) in
    (
      t',
      move-step (record { listener_fd = fd; takeover_fd = next; path = path }) _ t file e ∙ run,
      (λ j h. below j (omega arith) ∙ rw (ne→==_false j next (omega arith))),
      (λ j h. above j (omega arith) ∙ rw (ne→==_false j next (omega arith))),
      (
        below next (omega arith) ∙ rw (==_refl next) (sym e),
        Placed-update t t' next file (fd + 1) (next + 1) rest (omega arith) rs placed,
      ),
    )

-- If the listeners of a group are open, in rising order, and none is below 3, the child's dup2 calls
-- succeed and descriptor 3 + m is the m-th listener.
pub move_descriptors-Placed :
    (ls : List (ℕ × CString)) (t : Table)
    → Rising 3 ls
    → AreOpen t ls
    → (t' : Table) × (move_descriptors (group_sockets 3 ls) t ≡ some t') × Placed t t' 3 ls
move_descriptors-Placed ls t r o =
    let (t', run, _, _, placed) = move-Placed ls 3 t r o in (t', run, placed)
