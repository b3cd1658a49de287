-- ===== src/Launcher/Script/Writes.antt =====
-- The writes of write_mouse_packet and write_key_event in src/Launcher/main.cpp, any of which may fail
-- and end the program; the FIFOs do not block. `writes n` is whether the n-th write of the script is
-- whole.
use serena_de.Launcher.Script.{Effect}
use serena_de.Launcher.Script.Lines.{Replay}
use serena_de.Prelude.{
  ℕ, suc, ◌+◌, ◌≤◌, ◌<◌, ◌≡◌, refl, ap, Bool, true, false, List, [], ◌∷◌, ◌++◌, arith, ◌⊎◌, inl,
  inr, if◌then◌else◌, Bool-cases, subst,
}
use native.Mathlib.Decide.{ℕ_discrete}

-- The script is read to its end, or exit() is called.
pub data End : Type 0 where
  finished : End
  exits : ℕ → End

-- What was done, and how it ended.
pub record Played (K : Type 0) : Type 0 where
  pub done : List (Effect K)
  pub end : End

abbrev pub end_of : Bool → End
end_of is_finished = if is_finished then finished else exits 2

module _ {K : Type 0} where
  abbrev pub also : Effect K → Played K → Played K
  also e p = record { done = e ∷ p.done; end = p.end }

  abbrev pub stop : Played K
  stop = record { done = []; end = exits 1 }

  -- The effects of the lines, from write `n` on, and what follows them.
  unfoldable pub play_from : (ℕ → Bool) → ℕ → Bool → List (Effect K) → Played K
  play_from writes n is_finished [] = record { done = []; end = end_of is_finished }
  play_from writes n is_finished (Effect.sleep ms ∷ es) =
      also (Effect.sleep ms) (play_from writes n is_finished es)
  play_from writes n is_finished (Effect.mouse p ∷ es) =
      let rest = play_from writes (n + 1) is_finished es in
      if writes n then also (Effect.mouse p) rest else stop
  play_from writes n is_finished (Effect.keyboard k ∷ es) =
      let rest = play_from writes (n + 1) is_finished es in
      if writes n then also (Effect.keyboard k) rest else stop

  -- A script, whose lines are only read when the effects of the ones before them are done.
  unfoldable pub play : (ℕ → Bool) → Replay K → Played K
  unfolding play_from
  play writes r = play_from writes 0 r.is_finished r.effects

  abbrev pub count_writes : List (Effect K) → ℕ
  count_writes [] = 0
  count_writes (Effect.sleep ms ∷ es) = count_writes es
  count_writes (Effect.mouse p ∷ es) = suc (count_writes es)
  count_writes (Effect.keyboard k ∷ es) = suc (count_writes es)

  -- Either everything is done and every write was whole, or the first write that was not is the next.
  pub record IsPlayed (writes : ℕ → Bool) (n : ℕ) (is_finished : Bool) (es : List (Effect K))
      (p : Played K) : Type 0 where
    pub rest : List (Effect K)
    pub split : p.done ++ rest ≡ es
    pub whole : (k : ℕ) → n ≤ k → k < n + count_writes p.done → writes k ≡ true
    pub ended :
        ((rest ≡ []) × (p.end ≡ end_of is_finished))
        ⊎ ((writes (n + count_writes p.done) ≡ false) × (p.end ≡ exits 1))

  -- One more write in front.
  write-IsPlayed :
      (writes : ℕ → Bool) (n : ℕ) (is_finished : Bool) (e : Effect K) (es : List (Effect K))
      (p : Played K)
      → ((l : List (Effect K)) → count_writes (e ∷ l) ≡ suc (count_writes l))
      → IsPlayed writes (n + 1) is_finished es p
      → IsPlayed writes n is_finished (e ∷ es) (if writes n then also e p else stop)
  write-IsPlayed writes n is_finished e es p count h = elim (Bool-cases (writes n)) [
    | inl ok ↦ rw ok (record {
      rest = h.rest;
      split = ap (λ l. e ∷ l) h.split;
      whole = λ k a b. elim (ℕ_discrete k n) [
        | yes same ↦ rw same ok
        | no other ↦ h.whole k (omega arith) (omega (arith, count p.done))
      ];
      ended =
          subst
            (λ m.
              ((h.rest ≡ []) × (p.end ≡ end_of is_finished))
              ⊎ ((writes m ≡ false) × (p.end ≡ exits 1)))
            (omega (arith, count p.done)) h.ended;
    })
    | inr bad ↦ rw bad (record {
      rest = e ∷ es;
      split = refl;
      whole = λ k a b. absurd (omega arith);
      ended = inr (subst (λ m. writes m ≡ false) (omega arith) bad, refl);
    })
  ]

  play_from-IsPlayed :
      (writes : ℕ → Bool) (n : ℕ) (is_finished : Bool) (es : List (Effect K))
      → IsPlayed writes n is_finished es (play_from writes n is_finished es)
  unfolding play_from
  play_from-IsPlayed writes n is_finished [] = record {
    rest = [];
    split = refl;
    whole = λ k a b. absurd (omega arith);
    ended = inl (refl, refl);
  }
  play_from-IsPlayed writes n is_finished (Effect.sleep ms ∷ es) =
      let p = play_from-IsPlayed writes n is_finished es in
      record {
        rest = p.rest;
        split = ap (λ l. Effect.sleep ms ∷ l) p.split;
        whole = p.whole;
        ended = p.ended;
      }
  play_from-IsPlayed writes n is_finished (Effect.mouse m ∷ es) =
      write-IsPlayed writes n is_finished (Effect.mouse m) es _ (λ l. refl)
        (play_from-IsPlayed writes (n + 1) is_finished es)
  play_from-IsPlayed writes n is_finished (Effect.keyboard k ∷ es) =
      write-IsPlayed writes n is_finished (Effect.keyboard k) es _ (λ l. refl)
        (play_from-IsPlayed writes (n + 1) is_finished es)

-- However the writes of a script turn out, what is done is the front of what it asks for, up to the
-- first write that is not whole, which ends the program with status 1; only if there is none is all of
-- it done, and then the script has been read to its end, or a bad line ends the program with status 2.
pub play-IsPlayed :
    {K : Type 0} (writes : ℕ → Bool) (r : Replay K)
    → IsPlayed writes 0 r.is_finished r.effects (play writes r)
unfolding play
play-IsPlayed writes r = play_from-IsPlayed writes 0 r.is_finished r.effects
