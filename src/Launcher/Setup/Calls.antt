-- ===== src/Launcher/Setup/Calls.antt =====
-- The system calls among the effects of the preparation in src/Launcher/main.cpp, and sequences of its
-- parts.
use mathlib.Core.List.{append_assoc}
use serena_de.CString.{CString}
use serena_de.Launcher.Setup.{
  Effect, call, setenv, file, handle_signals, Ending, proceeds, exited, crashed, Preparation,
  then_at, calling,
}
use serena_de.Launcher.Sockets.{Call, unlink, bind, listen, Trace}
use serena_de.Prelude.{
  ◌≡◌, ◌≢◌, refl, sym, ap, ◌∙◌, Bool, true, false, List, [], ◌∷◌, ◌++◌, map, All, All-append,
  if◌then◌else◌,
}

-- The system calls among the effects.
abbrev pub calls_of : List Effect → List Call
calls_of [] = []
calls_of (call c ∷ es) = c ∷ calls_of es
calls_of (setenv _ _ ∷ es) = calls_of es
calls_of (file _ ∷ es) = calls_of es
calls_of (handle_signals ∷ es) = calls_of es

pub calls_of-append : (es fs : List Effect) → calls_of (es ++ fs) ≡ calls_of es ++ calls_of fs
calls_of-append [] fs = refl
calls_of-append (call c ∷ es) fs = ap (λ r. c ∷ r) (calls_of-append es fs)
calls_of-append (setenv _ _ ∷ es) fs = calls_of-append es fs
calls_of-append (file _ ∷ es) fs = calls_of-append es fs
calls_of-append (handle_signals ∷ es) fs = calls_of-append es fs

pub calls_of-map : (cs : List Call) → calls_of (map call cs) ≡ cs
calls_of-map [] = refl
calls_of-map (c ∷ cs) = ap (λ r. c ∷ r) (calls_of-map cs)

-- Two parts of a preparation that goes on both go on.
abbrev pub Both : List Effect → Ending → Preparation → Type 0
Both effects ending next =
    (ending ≡ proceeds)
    × (next.ending ≡ proceeds)
    × ((then_at effects ending next).effects ≡ effects ++ next.effects)

pub then_at-Both :
    (effects : List Effect) (ending : Ending) (next : Preparation)
    → (then_at effects ending next).ending ≡ proceeds
    → Both effects ending next
unfolding then_at
then_at-Both effects proceeds next h = (refl, h, refl)
then_at-Both effects exited next h = cc
then_at-Both effects crashed next h = cc

pub calling-goes_on : (t : Trace) → (calling t).ending ≡ proceeds → t.goes_on ≡ true
calling-goes_on t h = at_true t.goes_on h
  where
    at_true : (b : Bool) → (if b then proceeds else exited) ≡ proceeds → b ≡ true
    at_true true h = refl
    at_true false h = cc

-- Bound and listening, and not unlinked since.
abbrev pub IsQueued : CString → List Call → Type 0
IsQueued path calls =
    (before after : List Call) × (calls ≡ before ++ bind path ∷ listen ∷ after)
    × All (λ c. c ≢ unlink path) after

pub IsQueued-append :
    (path : CString) (cs ds : List Call)
    → IsQueued path cs
    → All (λ c. c ≢ unlink path) ds
    → IsQueued path (cs ++ ds)
IsQueued-append path cs ds (before, after, e, h) k = (
  before,
  after ++ ds,
  ap (λ r. r ++ ds) e ∙ append_assoc before (bind path ∷ listen ∷ after) ds,
  All-append (λ c. c ≢ unlink path) after ds h k,
)

pub IsQueued-behind :
    (path : CString) (cs ds : List Call) → IsQueued path ds → IsQueued path (cs ++ ds)
IsQueued-behind path cs ds (before, after, e, h) = (
  cs ++ before,
  after,
  ap (λ r. cs ++ r) e ∙ sym (append_assoc cs before (bind path ∷ listen ∷ after)),
  h,
)

pub then_at-All :
    (P : Call → Type 0) (effects : List Effect) (ending : Ending) (next : Preparation)
    → All P (calls_of effects)
    → All P (calls_of next.effects)
    → All P (calls_of (then_at effects ending next).effects)
unfolding then_at
then_at-All P effects proceeds next h k =
    rw (calls_of-append effects next.effects)
      (All-append P (calls_of effects) (calls_of next.effects) h k)
then_at-All P effects exited next h k = h
then_at-All P effects crashed next h k = h

-- What a part that goes on and the rest call together.
pub calls_of-calling :
    (t : Trace) (next : Preparation)
    → (then_at (calling t).effects (calling t).ending next).ending ≡ proceeds
    → (t.goes_on ≡ true)
      × (next.ending ≡ proceeds)
      × (calls_of (then_at (calling t).effects (calling t).ending next).effects
          ≡ t.calls ++ calls_of next.effects)
calls_of-calling t next h =
    let (first, second, e) = then_at-Both (calling t).effects (calling t).ending next h in
    (
      calling-goes_on t first,
      second,
      ap calls_of e
          ∙ calls_of-append (calling t).effects next.effects
          ∙ ap (λ r. r ++ calls_of next.effects) (calls_of-map t.calls),
    )
