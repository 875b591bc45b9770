-- ===== src/PodSsh/Forwards/Counts.antt =====
-- How often a forward stands in a list, and in a map whose keys are distinct.
use kube_ssh.Base.{
  ℕ, ◌+◌, ◌≡◌, refl, ◌∙◌, inl, inr, List, [], ◌∷◌, ◌++◌, none, some, nat_eq, if◌then◌else◌, arith,
  Bool-cases, some_inj, subst,
}
use kube_ssh.Text.{Str, ◌==◌}
use kube_ssh.Text.Laws.{==_iff, ==_refl}
use kube_ssh.Dict.{Dict, lookup, insert, delete, lookup-delete}
use kube_ssh.PodSsh.Forwards.{Forward, values}

abbrev pub one : ℕ → Forward → ℕ
one i f = if nat_eq f.identity i then 1 else 0

abbrev pub count : ℕ → List Forward → ℕ
count i [] = 0
count i (f ∷ fs) = one i f + count i fs

pub count-append : (i : ℕ) (fs gs : List Forward) → count i (fs ++ gs) ≡ count i fs + count i gs
count-append i [] gs = omega arith
count-append i (f ∷ fs) gs = omega (arith, count-append i fs gs)

-- No key stands twice.
abbrev pub IsDistinct : Dict Forward → Type 0
IsDistinct [] = Unit
IsDistinct ((bind, forward) ∷ rest) = (lookup bind rest ≡ none) × IsDistinct rest

delete-absent : (bind : Str) (m : Dict Forward) → lookup bind m ≡ none → delete bind m ≡ m
unfolding lookup delete
delete-absent bind [] h = refl
delete-absent bind ((own, forward) ∷ m) h = ground (arith, delete-absent bind m)

pub delete-IsDistinct : (bind : Str) (m : Dict Forward) → IsDistinct m → IsDistinct (delete bind m)
unfolding delete
delete-IsDistinct bind [] h = tt
delete-IsDistinct bind ((own, forward) ∷ m) (fresh, rest) = elim (Bool-cases (own == bind)) [
  | inl same ↦ rw same (delete-IsDistinct bind m rest)
  | inr other ↦ rw other (lookup-delete bind own m ∙ ground arith, delete-IsDistinct bind m rest)
]

pub insert-IsDistinct :
    (bind : Str) (forward : Forward) (m : Dict Forward)
    → IsDistinct m
    → IsDistinct (insert bind forward m)
unfolding insert
insert-IsDistinct bind forward m h =
    (lookup-delete bind bind m ∙ rw (==_refl bind) refl, delete-IsDistinct bind m h)

pub count-insert :
    (i : ℕ) (bind : Str) (forward : Forward) (m : Dict Forward)
    → lookup bind m ≡ none
    → count i (values (insert bind forward m)) ≡ one i forward + count i (values m)
unfolding insert
count-insert i bind forward m h = rw (delete-absent bind m h) refl

pub count-delete :
    (i : ℕ) (bind : Str) (forward : Forward) (m : Dict Forward)
    → IsDistinct m
    → lookup bind m ≡ some forward
    → count i (values m) ≡ one i forward + count i (values (delete bind m))
unfolding lookup delete
count-delete i bind forward [] d h = cc
count-delete i bind forward ((own, f) ∷ m) (fresh, rest) h = elim (Bool-cases (own == bind)) [
  | inl same ↦
      let key = (==_iff own bind).0 same in
      let it : f ≡ forward = some_inj (rw same at h) in
      rw (same, delete-absent bind m (subst (λ k. lookup k m ≡ none) key fresh), it) refl
  | inr other ↦
      let ih = count-delete i bind forward m rest (rw other at h) in rw other (omega (arith, ih))
]
