-- ===== src/Launcher/Sockets/Ancestors.antt =====
-- The directories above a socket's path in create_listening_socket of src/Launcher/main.cpp.
use mathlib.Core.Bool.{false≢true}
use mathlib.Core.List.{append-nil, append_assoc}
use serena_de.CString.{CString}
use serena_de.Launcher.Sockets.{
  Call, mkdir, unlink, bind, socket, listen, Os, unchecked, perform, ancestors_from, ancestors,
  make_ancestor_directories, create_listening_socket,
}
use serena_de.Prelude.{
  ◌<◌, ◌≡◌, ◌≢◌, refl, sym, ap, ◌∙◌, true, List, [], ◌∷◌, ◌++◌, length, take, take-all, Some, ◌==◌,
  Bool-cases, inl, inr, arith, subst,
}

-- Every slash has a mkdir for the text in front of it.
ancestors_from-Some :
    (seen p q : CString) → Some (λ c. c ≡ mkdir (seen ++ p)) (ancestors_from seen (p ++ b'/' ∷ q))
unfolding ancestors_from
ancestors_from-Some seen [] q = inl (ap mkdir (sym (append-nil seen)))
ancestors_from-Some seen (c ∷ p) q =
    let rest : Some (λ d. d ≡ mkdir (seen ++ c ∷ p))
        (ancestors_from (seen ++ c ∷ []) (p ++ b'/' ∷ q)) =
      subst (λ r. Some (λ d. d ≡ mkdir r) (ancestors_from (seen ++ c ∷ []) (p ++ b'/' ∷ q)))
        (append_assoc seen (c ∷ []) p) (ancestors_from-Some (seen ++ c ∷ []) p q) in
    elim (Bool-cases (c == b'/')) [ inl slash ↦ rw slash (inr rest) | inr other ↦ rw other rest ]

-- A run that goes on has made all its calls.
pub perform-goes_on :
    (os : Os) (cs : List Call) → (perform os cs).goes_on ≡ true → (perform os cs).calls ≡ cs
unfolding perform
perform-goes_on os [] h = refl
perform-goes_on os (c ∷ cs) h = elim (Bool-cases (os c)) [
  | inl ok ↦ rw ok (ap (λ r. c ∷ r) (perform-goes_on os cs (rw ok at h)))
  | inr bad ↦ absurd (false≢true (rw bad at h))
]

Some-append : (P : Call → Type 0) (xs ys : List Call) → Some P xs → Some P (xs ++ ys)
Some-append P [] ys h = absurd h
Some-append P (x ∷ xs) ys (inl h) = inl h
Some-append P (x ∷ xs) ys (inr h) = inr (Some-append P xs ys h)

Some-behind : (P : Call → Type 0) (xs ys : List Call) → Some P ys → Some P (xs ++ ys)
Some-behind P [] ys h = h
Some-behind P (x ∷ xs) ys h = inr (Some-behind P xs ys h)

make_ancestor_directories-Some :
    (path p q : CString)
    → length path < 4096
    → p ≢ []
    → path ≡ p ++ b'/' ∷ q
    → Some (λ d. d ≡ mkdir p) (make_ancestor_directories path)
unfolding make_ancestor_directories ancestors
make_ancestor_directories-Some path [] q short filled e = absurd (filled refl)
make_ancestor_directories-Some path (c ∷ p) q short filled e =
    subst (λ r. Some (λ d. d ≡ mkdir (c ∷ p)) (ancestors r))
      (sym (take-all 4095 path (omega arith) ∙ e)) (ancestors_from-Some (c ∷ []) p q)

-- Where create_listening_socket succeeds on a path of less than 108 bytes, every directory above the
-- path has been made, or was there, and a stale file at the path has been removed before the socket is
-- bound to the whole path; then it listens.
pub create_listening_socket-Binds :
    (os : Os) (path : CString)
    → length path < 108
    → (create_listening_socket os path).goes_on ≡ true
    → (before : List Call) × ((create_listening_socket os path).calls
        ≡ before ++ bind path ∷ listen ∷ [])
      × ((p q : CString) → p ≢ [] → path ≡ p ++ b'/' ∷ q → Some (λ d. d ≡ mkdir p) before)
      × Some (λ d. d ≡ unlink path) before
unfolding create_listening_socket
create_listening_socket-Binds os path short h =
    let above = make_ancestor_directories path in
    let made : (create_listening_socket os path).calls
        ≡ above ++ unlink path ∷ socket ∷ bind (take 107 path) ∷ listen ∷ [] =
      perform-goes_on (unchecked os) _ h in
    (
      above ++ unlink path ∷ socket ∷ [],
      made
          ∙ ap (λ r. above ++ unlink path ∷ socket ∷ bind r ∷ listen ∷ [])
              (take-all 107 path (omega arith))
          ∙ sym (append_assoc above (unlink path ∷ socket ∷ []) (bind path ∷ listen ∷ [])),
      (λ p q filled e.
          Some-append _ above _ (make_ancestor_directories-Some path p q (omega arith) filled e)),
      Some-behind _ above _ (inl refl),
    )
