-- ===== src/Launcher/Takeover/Value.antt =====
-- The value of SOCKET_TAKEOVER in spawn_with_takeover, src/Launcher/main.cpp.
use mathlib.Core.List.{append-nil, append_assoc}
use serena_de.CString.{CString}
use serena_de.Launcher.Takeover.{Socket, entry, append_entries}
use serena_de.Prelude.{
  ◌≤◌, ◌<◌, ◌≡◌, sym, inl, inr, List, [], ◌∷◌, ◌++◌, none, some, length, length-append, ltb, leb,
  arith, if◌then◌else◌, Bool-cases, lt→ltb, leb→le,
}

-- The entries one after the other.
abbrev pub joined : List Socket → CString
joined [] = []
joined (s ∷ ss) = entry s ss ++ joined ss

append_entries-joined :
    (ss : List Socket) (so_far : CString)
    → length so_far < 4096
    → append_entries so_far ss
      ≡ (if ltb (length (so_far ++ joined ss)) 4096 then some (so_far ++ joined ss) else none)
unfolding append_entries
append_entries-joined [] so_far h = rw (append-nil so_far, lt→ltb _ _ h)
append_entries-joined (s ∷ ss) so_far h =
    elim (Bool-cases (leb 4096 (length (so_far ++ entry s ss)))) [
      | inl long ↦ rw long (sym (too_long (leb→le _ _ long)))
      | inr short ↦
          rw (short, ← append_assoc)
            (append_entries-joined ss (so_far ++ entry s ss) (ground arith))
    ]
  where
    too_long :
        4096 ≤ length (so_far ++ entry s ss)
        → (if ltb (length (so_far ++ joined (s ∷ ss))) 4096
            then some (so_far ++ joined (s ∷ ss))
            else none)
          ≡ none
    too_long le = ground (
      arith,
      length-append so_far (entry s ss),
      length-append so_far (joined (s ∷ ss)),
      length-append (entry s ss) (joined ss),
    )

-- The value is all entries in order when they are shorter than the buffer, and else the child gives
-- up: no entry is ever cut short.
pub append_entries_lem :
    (ss : List Socket)
    → append_entries [] ss ≡ (if ltb (length (joined ss)) 4096 then some (joined ss) else none)
append_entries_lem ss = append_entries-joined ss [] (omega arith)
