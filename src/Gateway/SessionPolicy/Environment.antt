-- ===== src/Gateway/SessionPolicy/Environment.antt =====
-- Which environment variables a session may set.
use kube_ssh.Base.{
  ◌-◌, ◌≡◌, refl, ◌∙◌, ap, ◌↔◌, ◌⊎◌, inl, inr, true, false, List, [], ◌∷◌, ◌++◌, In, take, length,
  length-append, take-length-append, drop, Bool-cases, arith, subst,
}
use kube_ssh.Text.{Str, codes, ◌==◌, has_prefix, has_suffix, to_upper}
use kube_ssh.Text.Laws.{==_iff, has_suffix_iff, has_prefix-eq, has_prefix-append}
use kube_ssh.Gateway.SessionPolicy.{
  EffectiveSessionPolicy, env_pattern_allows, env_allowlist_allows, env_allowed,
}

-- A pattern is a name, or the start of names before a final star; both in upper case.
abbrev pub Allows : Str → Str → Type 0
Allows p upper =
    ((g : Str) × (rest : Str) × (p ≡ g ++ codes "*") × (upper ≡ g ++ rest)) ⊎ (upper ≡ p)

take-append-star : (g : Str) → take (length (g ++ codes "*") - 1) (g ++ codes "*") ≡ g
take-append-star g =
    let size : length (g ++ codes "*") - 1 ≡ length g =
      omega (arith, length-append g (codes "*")) in
    rw size (take-length-append g (codes "*"))

prefix-Allows :
    (p upper g : Str)
    → p ≡ g ++ codes "*"
    → has_prefix upper (take (length p - 1) p) ≡ true
    → Allows p upper
prefix-Allows p upper g e h =
    let starts : has_prefix upper g ≡ true =
      subst (λ t. has_prefix upper t ≡ true)
        (ap (λ q. take (length q - 1) q) e ∙ take-append-star g) h in
    inl (g, drop (length g) upper, e, has_prefix-eq upper g starts)

pattern-Allows : (p upper : Str) → env_pattern_allows p upper ≡ true → Allows p upper
unfolding env_pattern_allows
pattern-Allows p upper h = elim (Bool-cases (p == codes "*")) [
  | inl star ↦ inl ([], upper, (==_iff p (codes "*")).0 star, refl)
  | inr longer ↦ elim (Bool-cases (has_suffix p (codes "*"))) [
    | inl open_end ↦
        let (g, e) = (has_suffix_iff p (codes "*")).0 open_end in
        prefix-Allows p upper g e (rw (longer, open_end) at h)
    | inr whole ↦ inr ((==_iff upper p).0 (rw (longer, whole) at h))
  ]
]

prefix-allowed :
    (p upper g rest : Str)
    → p ≡ g ++ codes "*"
    → upper ≡ g ++ rest
    → has_prefix upper (take (length p - 1) p) ≡ true
prefix-allowed p upper g rest e e' = rw (e, e', take-append-star g) (has_prefix-append g rest)

Allows-pattern : (p upper : Str) → Allows p upper → env_pattern_allows p upper ≡ true
unfolding env_pattern_allows
Allows-pattern p upper h = elim (Bool-cases (p == codes "*")) [
  | inl star ↦ rw star refl
  | inr longer ↦ elim (Bool-cases (has_suffix p (codes "*"))) [
    | inl open_end ↦
        let (g, e) = (has_suffix_iff p (codes "*")).0 open_end in
        rw (longer, open_end) (by_prefix g e h)
    | inr whole ↦ rw (longer, whole) (by_name whole h)
  ]
]
  where
    by_prefix :
        (g : Str)
        → p ≡ g ++ codes "*"
        → Allows p upper
        → has_prefix upper (take (length p - 1) p) ≡ true
    by_prefix g e (inl (g', rest, e', u)) = prefix-allowed p upper g' rest e' u
    by_prefix g e (inr same) = prefix-allowed p upper g (codes "*") e (same ∙ e)

    by_name : has_suffix p (codes "*") ≡ false → Allows p upper → (upper == p) ≡ true
    by_name whole (inl (g, rest, e, u)) =
        let ends = (has_suffix_iff p (codes "*")).1 (g, e) in absurd (cc)
    by_name whole (inr same) = (==_iff upper p).1 same

abbrev pub Listed : List Str → Str → Type 0
Listed allowlist key =
    (pattern : Str) × In pattern allowlist × Allows (to_upper pattern) (to_upper key)

-- A key is on an allowlist exactly when one of the patterns is it, or is the start of it before a star,
-- in upper case.
env_allowlist_allows_iff :
    (allowlist : List Str) (key : Str)
    → (env_allowlist_allows allowlist key ≡ true) ↔ Listed allowlist key
unfolding env_allowlist_allows
env_allowlist_allows_iff [] key = (λ h. cc, λ (pattern, none_in, _). absurd none_in)
env_allowlist_allows_iff (first ∷ allowlist) key =
    let rest = env_allowlist_allows_iff allowlist key in
    elim (Bool-cases (env_pattern_allows (to_upper first) (to_upper key))) [
      | inl allows ↦ (
        λ _. (first, inl refl, pattern-Allows (to_upper first) (to_upper key) allows),
        λ _. rw allows refl,
      )
      | inr refuses ↦ (
        λ h.
            let (pattern, member, found) = rest.0 (rw refuses at h) in (pattern, inr member, found),
        λ listed. rw refuses (rest.1 (later refuses listed)),
      )
    ]
  where
    later :
        env_pattern_allows (to_upper first) (to_upper key) ≡ false
        → Listed (first ∷ allowlist) key
        → Listed allowlist key
    later refuses (pattern, inl same, found) =
        let allows =
          Allows-pattern (to_upper first) (to_upper key)
            (subst (λ t. Allows (to_upper t) (to_upper key)) same found) in
        absurd (cc)
    later refuses (pattern, inr member, found) = (pattern, member, found)

-- Where the Access list is configured, a session may set a variable exactly when both lists have a
-- pattern for its name.
pub env_allowed_iff :
    (p : EffectiveSessionPolicy) (key : Str)
    → p.access_env_configured ≡ true
    → (env_allowed p key ≡ true)
      ↔ (Listed p.global_env_allowlist key × Listed p.access_env_allowlist key)
unfolding env_allowed
env_allowed_iff p key set =
    let global = env_allowlist_allows_iff p.global_env_allowlist key in
    let access = env_allowlist_allows_iff p.access_env_allowlist key in
    (
      λ h. (global.0 (ground arith), access.0 (ground arith)),
      λ (g, a). let g' = global.1 g in let a' = access.1 a in rw (set, g', a') refl,
    )
