-- ===== src/Launcher/Setup/Listening.antt =====
-- The sockets of main of src/Launcher/main.cpp when its preparation is done.
use mathlib.Core.Bool.{false≢true}
use mathlib.Core.List.{append_assoc}
use serena_de.CString.{CString, equal}
use serena_de.CString.Equality.{equal_iff}
use serena_de.Launcher.Setup.Calls.{
  calls_of, calls_of-map, calls_of-calling, then_at-All, IsQueued, IsQueued-append, IsQueued-behind,
}
use serena_de.Launcher.Setup.{proceeds, calling, listen_all}
use serena_de.Launcher.Sockets.Ancestors.{perform-goes_on}
use serena_de.Launcher.Sockets.{
  Call, unlink, bind, socket, listen, Os, unchecked, ancestors_from, ancestors,
  make_ancestor_directories, create_listening_socket, perform,
}
use serena_de.Prelude.{
  ◌≡◌, ◌≢◌, ◌≤◌, sym, ap, ◌∙◌, true, List, [], ◌∷◌, ◌++◌, take, take-all, length, All, All-append,
  Some, Some-All, Bool-cases, inl, inr, ◌⊎◌, ◌==◌, subst,
}

ancestors_from-keeps :
    (path seen cs : CString) → All (λ c. c ≢ unlink path) (ancestors_from seen cs)
unfolding ancestors_from
ancestors_from-keeps path seen [] = tt
ancestors_from-keeps path seen (c ∷ cs) =
    let rest : All (λ d. d ≢ unlink path) (ancestors_from (seen ++ c ∷ []) cs) =
      ancestors_from-keeps path (seen ++ c ∷ []) cs in
    elim (Bool-cases (c == b'/')) [
      | inl slash ↦ rw slash ((λ e. cc), rest)
      | inr other ↦ rw other rest
    ]

pub perform-All :
    (P : Call → Type 0) (os : Os) (cs : List Call) → All P cs → All P (perform os cs).calls
unfolding perform
perform-All P os [] h = tt
perform-All P os (c ∷ cs) h = elim (Bool-cases (os c)) [
  | inl ok ↦ rw ok (h.0, perform-All P os cs h.1)
  | inr bad ↦ rw bad (h.0, tt)
]

pub make_ancestor_directories-keeps :
    (path dir : CString) → All (λ c. c ≢ unlink path) (make_ancestor_directories dir)
unfolding make_ancestor_directories ancestors
make_ancestor_directories-keeps path dir = from (take 4095 dir)
  where
    from : (cs : CString) → All (λ c. c ≢ unlink path) (ancestors cs)
    from [] = tt
    from (c ∷ cs) = ancestors_from-keeps path (c ∷ []) cs

-- Only a socket of the same path removes what is bound there.
create_listening_socket-keeps :
    (os : Os) (path q : CString)
    → q ≢ path
    → All (λ c. c ≢ unlink path) (create_listening_socket os q).calls
unfolding create_listening_socket
create_listening_socket-keeps os path q ne =
    perform-All (λ c. c ≢ unlink path) (unchecked os) _
      (All-append (λ c. c ≢ unlink path) (make_ancestor_directories q) _
        (make_ancestor_directories-keeps path q)
        ((λ e. ne cc), ((λ e. cc), ((λ e. cc), ((λ e. cc), tt)))))

create_listening_socket-IsQueued :
    (os : Os) (path : CString)
    → length path ≤ 107
    → (create_listening_socket os path).goes_on ≡ true
    → IsQueued path (create_listening_socket os path).calls
unfolding create_listening_socket
create_listening_socket-IsQueued os path short h =
    let whole : take 107 path ≡ path = take-all 107 path short in
    (
      make_ancestor_directories path ++ unlink path ∷ socket ∷ [],
      [],
      perform-goes_on (unchecked os) _ h
          ∙ sym (append_assoc (make_ancestor_directories path) (unlink path ∷ socket ∷ []) _)
          ∙ ap
              (λ p.
                (make_ancestor_directories path ++ unlink path ∷ socket ∷ [])
                ++ bind p ∷ listen ∷ [])
              whole,
      tt,
    )

listen_all-keeps :
    (os : Os) (path : CString) (qs : List CString)
    → All (λ q. q ≢ path) qs
    → All (λ c. c ≢ unlink path) (calls_of (listen_all os qs).effects)
unfolding listen_all
listen_all-keeps os path [] h = tt
listen_all-keeps os path (q ∷ qs) h =
    let first = calling (create_listening_socket os q) in
    then_at-All (λ c. c ≢ unlink path) first.effects first.ending (listen_all os qs)
      (rw (calls_of-map (create_listening_socket os q).calls)
        (create_listening_socket-keeps os path q h.0))
      (listen_all-keeps os path qs h.1)

-- A path stands in a list or does not.
stands_in : (path : CString) (qs : List CString) → Some (λ q. q ≡ path) qs ⊎ All (λ q. q ≢ path) qs
stands_in path [] = inr tt
stands_in path (q ∷ qs) = elim (Bool-cases (equal q path)) [
  | inl same ↦ inl (inl ((equal_iff q path).0 same))
  | inr other ↦ elim (stands_in path qs) [
    | inl later ↦ inl (inr later)
    | inr never ↦ inr ((λ e. false≢true (sym other ∙ (equal_iff q path).1 e)), never)
  ]
]

pub listen_all-IsQueued :
    (os : Os) (path : CString) (qs : List CString)
    → All (λ q. length q ≤ 107) qs
    → (listen_all os qs).ending ≡ proceeds
    → Some (λ q. q ≡ path) qs
    → IsQueued path (calls_of (listen_all os qs).effects)
unfolding listen_all
listen_all-IsQueued os path [] short ends here = absurd here
listen_all-IsQueued os path (q ∷ qs) short ends here =
    let t = create_listening_socket os q in
    let (goes_on, rest, e) = calls_of-calling t (listen_all os qs) ends in
    subst (IsQueued path) (sym e) (elim (stands_in path qs) [
      | inl later ↦
          IsQueued-behind path t.calls _ (listen_all-IsQueued os path qs short.1 rest later)
      | inr never ↦
          IsQueued-append path t.calls _
            (subst (λ r. IsQueued r t.calls) (first here never)
              (create_listening_socket-IsQueued os q short.0 goes_on))
            (listen_all-keeps os path qs never)
    ])
  where
    first : Some (λ r. r ≡ path) (q ∷ qs) → All (λ r. r ≢ path) qs → q ≡ path
    first (inl same) never = same
    first (inr later) never = let (r, same, other) = Some-All qs later never in absurd (other same)
