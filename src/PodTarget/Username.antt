-- ===== src/PodTarget/Username.antt =====
-- The SSH user name as a Pod locator.
use kube_ssh.Base.{
  true, false, List, [], ◌∷◌, ◌++◌, ◌≡◌, ◌≢◌, ◌↔◌, inl, inr, ok, arith, Bool-cases, refl, sym, ap,
}
use kube_ssh.Text.{Str, contains, split, join}
use kube_ssh.Text.Laws.{Unseparated, join-split, split-last, split-append}
use kube_ssh.Target.{Target, ResolveInput}
use kube_ssh.PodTarget.{new}
use kube_ssh.PodTarget.Resolve.{target_of_parts, resolve_username}

-- namespace.pod or namespace.pod.container
abbrev pub username : Str → Str → Str → Str
username namespace pod [] = namespace ++ (b'.' ∷ pod)
username namespace pod (c ∷ container) = namespace ++ (b'.' ∷ (pod ++ (b'.' ∷ c ∷ container)))

abbrev Dotless : Str → Type 0
Dotless s = contains b'.' s ≡ false

pub record Locates (user : Str) (tgt : Target) : Type 0 where
  pub namespace : Str
  pub pod : Str
  pub container : Str
  pub spelled : user ≡ username namespace pod container
  pub dotless : Dotless namespace × Dotless pod × Dotless container
  pub named : (namespace ≢ []) × (pod ≢ [])
  pub target : tgt ≡ new namespace pod container

parts-Locates :
    (q : Str × List Str) (tgt : Target)
    → Unseparated b'.' q
    → target_of_parts q ≡ ok tgt
    → Locates (join b'.' q) tgt
unfolding target_of_parts contains
parts-Locates (namespace, []) tgt u h = absurd (ground arith)
parts-Locates (namespace, pod ∷ []) tgt u h = record {
  namespace = namespace;
  pod = pod;
  container = [];
  spelled = refl;
  dotless = (u.0, u.1.0, refl);
  named = (ground arith, ground arith);
  target = ground arith;
}
parts-Locates (namespace, pod ∷ [] ∷ []) tgt u h = absurd (ground arith)
parts-Locates (namespace, pod ∷ (c ∷ container) ∷ []) tgt u h = record {
  namespace = namespace;
  pod = pod;
  container = c ∷ container;
  spelled = refl;
  dotless = (u.0, u.1.0, u.1.1.0);
  named = (ground arith, ground arith);
  target = ground arith;
}
parts-Locates (namespace, a ∷ b ∷ c ∷ more) tgt u h = absurd (ground arith)

contains-username : (a b : Str) → contains b'.' (a ++ (b'.' ∷ b)) ≡ true
unfolding contains
contains-username [] b = refl
contains-username (c ∷ a) b = rw (contains-username a b) (ground arith)

located :
    (namespace pod container : Str)
    → Dotless namespace × Dotless pod × Dotless container
    → (namespace ≢ []) × (pod ≢ [])
    → (contains b'.' (username namespace pod container) ≡ true)
      × (target_of_parts (split b'.' (username namespace pod container))
          ≡ ok (new namespace pod container))
unfolding target_of_parts
located namespace pod [] d n = (
  contains-username namespace pod,
  rw (split-append b'.' namespace pod d.0, split-last b'.' pod d.1) (ground arith),
)
located namespace pod (c ∷ container) d n = (
  contains-username namespace _,
  rw
      (
        split-append b'.' namespace (pod ++ (b'.' ∷ c ∷ container)) d.0,
        split-append b'.' pod (c ∷ container) d.1,
        split-last b'.' (c ∷ container) d.2,
      )
      (ground arith),
)

-- The user names that resolve are namespace.pod and namespace.pod.container with non-empty parts
-- that hold no dot, and each resolves to the target of these parts.
pub resolve_username_iff :
    (input : ResolveInput) (tgt : Target)
    → (resolve_username input ≡ ok tgt) ↔ Locates input.ssh_user tgt
unfolding resolve_username
resolve_username_iff input tgt = (
  λ h. elim (Bool-cases (contains b'.' input.ssh_user)) [
    | inl dotted ↦
        let (joined, parts) = join-split b'.' input.ssh_user in
        rw joined at (parts-Locates (split b'.' input.ssh_user) tgt parts (rw dotted at h))
    | inr plain ↦ absurd (ground arith)
  ],
  λ w.
      let (dotted, resolved) = located w.namespace w.pod w.container w.dotless w.named in
      rw (w.spelled, dotted, resolved) (ap ok (sym w.target)),
)
