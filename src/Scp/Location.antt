-- ===== src/Scp/Location.antt =====
-- Where joined paths lead.
use kube_ssh.Base.{
  ℕ, ◌≡◌, refl, ◌∙◌, ap, ◌⊎◌, inl, inr, Bool, true, false, ◌||◌, List, [], ◌∷◌, ◌++◌, ok, arith,
  Bool-cases, nat_eq, All,
}
use kube_ssh.Text.{Str, codes, ◌==◌, has_prefix, split, is_empty, contains}
use kube_ssh.Text.Laws.{==_iff, join-split, split-last}
use kube_ssh.Scp.Header.{clean_scp_name, is_rejected}
use kube_ssh.Scp.Paths.{
  Stack, go_up, go, walk, parts, is_rooted, location, join_stack, render, filepath_clean,
  filepath_join,
}

-- A component that stands for itself.
abbrev pub IsPlain : Str → Type 0
IsPlain name = is_rejected name ≡ false

pub clean-IsPlain : (name : Str) → clean_scp_name name ≡ ok name → IsPlain name
unfolding clean_scp_name
clean-IsPlain name h = ground arith

go-plain :
    (rooted : Bool) (stack : Stack) (name : Str)
    → IsPlain name
    → go rooted stack name ≡ name ∷ stack
unfolding go is_rejected
go-plain rooted stack name h = ground arith

walk-append :
    (rooted : Bool) (stack : Stack) (cs ds : List Str)
    → walk rooted stack (cs ++ ds) ≡ walk rooted (walk rooted stack cs) ds
unfolding walk
walk-append rooted stack [] ds = refl
walk-append rooted stack (c ∷ cs) ds = walk-append rooted (go rooted stack c) cs ds

-- What follows a slash adds its components.
parts-append : (a b : Str) → parts (a ++ (b'/' ∷ b)) ≡ parts a ++ parts b
unfolding split
parts-append [] b = refl
parts-append (c ∷ a) b = elim (Bool-cases (nat_eq c b'/')) [
  | inl at ↦ rw at (ap (◌∷◌ []) (parts-append a b))
  | inr other ↦ let ih = parts-append a b in rw other (cc)
]

parts-plain : (name : Str) → IsPlain name → parts name ≡ name ∷ []
unfolding is_rejected
parts-plain name h = rw (split-last b'/' name (ground arith)) refl

abbrev Unslashed : Str → Type 0
Unslashed c = contains b'/' c ≡ false

-- A component of a cleaned path is plain, or ".." above nothing but "..", in a path without a root.
abbrev IsUp : Bool → Str → Stack → Type 0
IsUp rooted c [] = (c ≡ codes "..") × (rooted ≡ false)
IsUp rooted c (d ∷ rest) = (c ≡ codes "..") × (rooted ≡ false) × (d ≡ codes "..")

abbrev IsNormal : Bool → Stack → Type 0
IsNormal rooted [] = Unit
IsNormal rooted (c ∷ rest) = (IsPlain c ⊎ IsUp rooted c rest) × IsNormal rooted rest

up-IsNormal :
    (rooted : Bool) (stack : Stack) → IsNormal rooted stack → IsNormal rooted (go_up rooted stack)
unfolding go_up is_rejected
up-IsNormal true [] h = h
up-IsNormal false [] h = (inr (refl, refl), tt)
up-IsNormal rooted (top ∷ rest) h = elim (Bool-cases (top == codes "..")) [
  | inl up ↦ rw up (inr (refl, unrooted rest h up, (==_iff top (codes "..")).0 up), h)
  | inr other ↦ rw other h.1
]
  where
    unrooted :
        (rest : Stack) → IsNormal rooted (top ∷ rest) → (top == codes "..") ≡ true → rooted ≡ false
    unrooted rest (inl plain, _) up = absurd (ground arith)
    unrooted [] (inr u, _) up = u.1
    unrooted (d ∷ rest) (inr u, _) up = u.1

go-IsNormal :
    (rooted : Bool) (stack : Stack) (c : Str)
    → Unslashed c
    → IsNormal rooted stack
    → IsNormal rooted (go rooted stack c)
unfolding go is_rejected
go-IsNormal rooted stack c u h = elim (Bool-cases (is_empty c || c == codes ".")) [
  | inl stays ↦ rw stays h
  | inr moves ↦ elim (Bool-cases (c == codes "..")) [
    | inl up ↦ rw (moves, up) (up-IsNormal rooted stack h)
    | inr down ↦ rw (moves, down) (inl (ground arith), h)
  ]
]

walk-IsNormal :
    (rooted : Bool) (stack : Stack) (cs : List Str)
    → All Unslashed cs
    → IsNormal rooted stack
    → IsNormal rooted (walk rooted stack cs)
unfolding walk
walk-IsNormal rooted stack [] u h = h
walk-IsNormal rooted stack (c ∷ cs) u h =
    walk-IsNormal rooted (go rooted stack c) cs u.1 (go-IsNormal rooted stack c u.0 h)

parts-Unslashed : (path : Str) → All Unslashed (parts path)
parts-Unslashed path = (join-split b'/' path).1

go-top :
    (rooted : Bool) (c : Str) (rest : Stack)
    → IsPlain c ⊎ IsUp rooted c rest
    → go rooted rest c ≡ c ∷ rest
unfolding go go_up
go-top rooted c rest (inl plain) = go-plain rooted rest c plain
go-top rooted c [] (inr (up, unrooted)) = rw (up, unrooted) refl
go-top rooted c (d ∷ rest) (inr (up, unrooted, below)) = rw (up, below) refl

top-Unslashed :
    (rooted : Bool) (c : Str) (rest : Stack) → IsPlain c ⊎ IsUp rooted c rest → Unslashed c
unfolding is_rejected contains
top-Unslashed rooted c rest (inl plain) = ground arith
top-Unslashed rooted c [] (inr (up, _)) = rw up refl
top-Unslashed rooted c (d ∷ rest) (inr (up, _, _)) = rw up refl

-- The written components lead back to the stack.
walk-join_stack :
    (rooted : Bool) (c : Str) (rest : Stack)
    → IsNormal rooted (c ∷ rest)
    → walk rooted [] (parts (join_stack (c ∷ rest))) ≡ c ∷ rest
unfolding walk join_stack
walk-join_stack rooted c [] h =
    rw (split-last b'/' c (top-Unslashed rooted c [] h.0)) (go-top rooted c [] h.0)
walk-join_stack rooted c (d ∷ rest) h =
    rw
      (
        parts-append (join_stack (d ∷ rest)) c,
        split-last b'/' c (top-Unslashed rooted c (d ∷ rest) h.0),
        walk-append rooted [] (parts (join_stack (d ∷ rest))) (c ∷ []),
        walk-join_stack rooted d rest h.1,
      )
      (go-top rooted c (d ∷ rest) h.0)

-- Text that begins with a byte other than a slash.
abbrev IsRelative : Str → Type 0
IsRelative s = (is_empty s ≡ false) × (is_rooted s ≡ false)

IsRelative-append : (a b : Str) → IsRelative a → IsRelative (a ++ b)
unfolding has_prefix
IsRelative-append [] b h = absurd (cc)
IsRelative-append (c ∷ a) b h = ground arith

top-IsRelative : (c : Str) (rest : Stack) → IsPlain c ⊎ IsUp false c rest → IsRelative c
unfolding is_rejected contains has_prefix
top-IsRelative [] rest (inl plain) = absurd (ground arith)
top-IsRelative (d ∷ c) rest (inl plain) = (refl, ground arith)
top-IsRelative c [] (inr (up, _)) = rw up (refl, refl)
top-IsRelative c (d ∷ rest) (inr (up, _, _)) = rw up (refl, refl)

join_stack-IsRelative :
    (c : Str) (rest : Stack) → IsNormal false (c ∷ rest) → IsRelative (join_stack (c ∷ rest))
unfolding join_stack
join_stack-IsRelative c [] h = top-IsRelative c [] h.0
join_stack-IsRelative c (d ∷ rest) h =
    IsRelative-append (join_stack (d ∷ rest)) (b'/' ∷ c) (join_stack-IsRelative d rest h.1)

-- A path that is rendered leads where it did.
location-render :
    (rooted : Bool) (stack : Stack)
    → IsNormal rooted stack
    → location (render (rooted, stack)) ≡ (rooted, stack)
unfolding render join_stack walk go split has_prefix ◌==◌
location-render true [] h = refl
location-render true (c ∷ rest) h = ap (λ t. (true, t)) (walk-join_stack true c rest h)
location-render false [] h = refl
location-render false (c ∷ rest) h =
    rw ((join_stack-IsRelative c rest h).1) (ap (λ t. (false, t)) (walk-join_stack false c rest h))

pub location-filepath_clean : (path : Str) → location (filepath_clean path) ≡ location path
unfolding filepath_clean
location-filepath_clean path =
    location-render (is_rooted path) (walk (is_rooted path) [] (parts path))
      (walk-IsNormal (is_rooted path) [] (parts path) (parts-Unslashed path) tt)

plain-unrooted : (name : Str) → IsPlain name → is_rooted name ≡ false
unfolding is_rejected contains has_prefix
plain-unrooted [] h = absurd (ground arith)
plain-unrooted (d ∷ name) h = ground arith

location-plain : (name : Str) → IsPlain name → location name ≡ (false, name ∷ [])
unfolding walk
location-plain name h =
    rw (plain-unrooted name h, parts-plain name h) (ap (λ t. (false, t)) (go-plain false [] name h))

location-below :
    (c : ℕ) (dir name : Str)
    → IsPlain name
    → location (c ∷ (dir ++ (b'/' ∷ name))) ≡ (is_rooted (c ∷ dir), name ∷ (location (c ∷ dir)).1)
unfolding walk has_prefix
location-below c dir name h =
    let rooted = is_rooted (c ∷ dir) in
    let all = parts (c ∷ dir) in
    rw
      (
        parts-append (c ∷ dir) name,
        parts-plain name h,
        walk-append rooted [] all (name ∷ []),
        go-plain rooted (walk rooted [] all) name h,
      )
      refl

-- A clean name that is joined to a path adds itself to the place of the path, and nothing else.
pub location-filepath_join :
    (dir name : Str)
    → clean_scp_name name ≡ ok name
    → location (filepath_join dir name) ≡ (is_rooted dir, name ∷ (location dir).1)
unfolding filepath_join clean_scp_name is_rejected has_prefix walk split
location-filepath_join [] [] h = absurd (ground arith)
location-filepath_join [] (d ∷ name) h =
    location-filepath_clean (d ∷ name) ∙ location-plain (d ∷ name) (clean-IsPlain (d ∷ name) h)
location-filepath_join (c ∷ dir) name h =
    location-filepath_clean ((c ∷ dir) ++ (b'/' ∷ name))
    ∙ location-below c dir name (clean-IsPlain name h)
