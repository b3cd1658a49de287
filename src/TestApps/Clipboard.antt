-- ===== src/TestApps/Clipboard.antt =====
-- clip_copy.cpp and clip_paste.cpp of src/TestApps on one clipboard.
use serena_de.CString.{CString, text}
use serena_de.Prelude.{◌≡◌, refl, true, List, [], ◌∷◌, Option, none, some, if◌then◌else◌}
use serena_de.TestApps.{running, ClipboardApi, refresh, pasted, on_changes, clip_paste}

module _ (api : ClipboardApi) where
  -- What the label is to show.
  abbrev pub or_empty : CString → CString
  or_empty [] = text "(empty)"
  or_empty (c ∷ cs) = c ∷ cs

  abbrev pub last : api.State → List api.State → api.State
  last s [] = s
  last s (t ∷ ts) = last t ts

  module _ (valid : (s : api.State) → api.is_utf8 (api.fetch s) ≡ true) where
    refresh-or_empty : (s : api.State) → refresh api s ≡ some (or_empty (api.fetch s))
    unfolding refresh
    refresh-or_empty s = shown (api.fetch s) (valid s)
      where
        shown :
            (data_of : CString)
            → api.is_utf8 data_of ≡ true
            → ◌≡◌ {A = Option CString}
                (elim data_of [
                  | [] ↦ some (text "(empty)")
                  | c ∷ cs ↦ if api.is_utf8 (c ∷ cs) then some (c ∷ cs) else none
                ])
                (some (or_empty data_of))
        shown [] h = refl
        shown (c ∷ cs) h = rw h refl

    on_changes-last :
        (s : api.State) (changes : List api.State)
        → on_changes api changes (or_empty (api.fetch s))
          ≡ running (pasted api (or_empty (api.fetch (last s changes))))
    unfolding on_changes
    on_changes-last s [] = refl
    on_changes-last s (t ∷ ts) = rw (on_changes, refresh-or_empty t) (on_changes-last t ts)

    pub clip_paste-last :
        (s : api.State) (changes : List api.State)
        → clip_paste api true s changes
          ≡ running (pasted api (or_empty (api.fetch (last s changes))))
    unfolding clip_paste
    clip_paste-last s changes = rw (clip_paste, refresh-or_empty s) (on_changes-last s changes)
