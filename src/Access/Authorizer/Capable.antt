-- ===== src/Access/Authorizer/Capable.antt =====
-- pkg/accesspolicy/authorizer.go: the containers and the capabilities that a credential admits.
use kube_ssh.Base.{
  true, not, List, [], ◌∷◌, ◌≡◌, refl, ◌≢◌, ◌↔◌, ◌⊎◌, inl, inr, none, some, if◌then◌else◌, ◌&&◌, In,
  arith, Bool-cases,
}
use kube_ssh.Text.{Str, codes, ◌==◌, is_empty}
use kube_ssh.Text.Laws.{elem_iff, ==_iff, ==_false}
use kube_ssh.Wildcard.{match_any}
use kube_ssh.Wildcard.Correct.{match_any_iff}
use kube_ssh.Authz.{
  Attributes, Reason, destination_not_allowed, bind_not_allowed, capability_local_forward,
  capability_remote_forward,
}
use kube_ssh.Authz.Limits.{SomeMatches, local_ne_remote}
use kube_ssh.Access.{CapabilityPolicy, container_allowed}
use kube_ssh.Access.Authorizer.{
  CapabilityDefaults, effective, forward_list, destination, bind, forward_refusal,
  capability_refusal,
}

-- An empty list allows everything.
abbrev pub Admits : List Str → Str → Type 0
Admits patterns v = (patterns ≡ []) ⊎ SomeMatches patterns v

pub container_allowed_iff :
    (patterns : List Str) (c : Str) → (container_allowed patterns c ≡ true) ↔ Admits patterns c
unfolding container_allowed
container_allowed_iff [] c = (λ _. inl refl, λ _. refl)
container_allowed_iff (p ∷ ps) c = (λ h. inr ((match_any_iff (p ∷ ps) c).0 h), λ a. admitted a)
  where
    admitted : Admits (p ∷ ps) c → match_any (p ∷ ps) c ≡ true
    admitted (inl e) = absurd (ground arith)
    admitted (inr m) = (match_any_iff (p ∷ ps) c).1 m

-- The credential's capability policy over the gateway's defaults.
pub record Capable (policy : CapabilityPolicy) (defaults : CapabilityDefaults) (attrs : Attributes)
    : Type 0 where
  pub capability :
      (effective policy.allowed defaults.allowed ≡ [])
      ⊎ In attrs.action (effective policy.allowed defaults.allowed)
      ⊎ In (codes "*") (effective policy.allowed defaults.allowed)
  pub local :
      attrs.action ≡ capability_local_forward
      → Admits
          (forward_list policy.local_forward defaults.local_forward_destinations)
          (destination attrs)
  pub remote :
      attrs.action ≡ capability_remote_forward
      → Admits (forward_list policy.remote_forward defaults.remote_forward_binds) (bind attrs)

refuses_iff :
    (patterns : List Str) (v : Str) (reason : Reason)
    → ((if not (is_empty patterns) && not (match_any patterns v) then some reason else none) ≡ none)
      ↔ Admits patterns v
unfolding container_allowed
refuses_iff patterns v reason = (
  λ h. (container_allowed_iff patterns v).0 (allowed h),
  λ a. refused ((container_allowed_iff patterns v).1 a),
)
  where
    allowed :
        (if not (is_empty patterns) && not (match_any patterns v) then some reason else none) ≡ none
        → container_allowed patterns v ≡ true
    allowed h = ground arith

    refused :
        container_allowed patterns v ≡ true
        → (if not (is_empty patterns) && not (match_any patterns v) then some reason else none)
          ≡ none
    refused h = ground arith

-- The action and its lists, with the lists computed.
module _ (policy : CapabilityPolicy) (defaults : CapabilityDefaults) (attrs : Attributes) where
  abbrev locals : List Str
  locals = forward_list policy.local_forward defaults.local_forward_destinations

  abbrev remotes : List Str
  remotes = forward_list policy.remote_forward defaults.remote_forward_binds

  forward_refusal-local :
      attrs.action ≡ capability_local_forward
      → (forward_refusal policy defaults attrs ≡ none) ↔ Admits locals (destination attrs)
  unfolding forward_refusal
  forward_refusal-local e =
      let at = (==_iff attrs.action capability_local_forward).1 e in
      let admits = refuses_iff locals (destination attrs) destination_not_allowed in rw at admits

  forward_refusal-remote :
      attrs.action ≡ capability_remote_forward
      → (forward_refusal policy defaults attrs ≡ none) ↔ Admits remotes (bind attrs)
  unfolding forward_refusal
  forward_refusal-remote e =
      let at = (==_iff attrs.action capability_remote_forward).1 e in
      let not_local = ==_false attrs.action capability_local_forward (λ l. local_ne_remote l e) in
      let admits = refuses_iff remotes (bind attrs) bind_not_allowed in rw (not_local, at) admits

  forward_refusal-other :
      attrs.action ≢ capability_local_forward
      → attrs.action ≢ capability_remote_forward
      → forward_refusal policy defaults attrs ≡ none
  unfolding forward_refusal
  forward_refusal-other n m = ground (
    arith,
    ==_iff attrs.action capability_local_forward,
    ==_iff attrs.action capability_remote_forward,
  )

  -- The list test of capabilityAllowed.
  abbrev Listed : Type 0
  Listed =
      (effective policy.allowed defaults.allowed ≡ [])
      ⊎ In attrs.action (effective policy.allowed defaults.allowed)
      ⊎ In (codes "*") (effective policy.allowed defaults.allowed)

  capability_refusal-none :
      (capability_refusal policy defaults attrs ≡ none)
      ↔ (Listed × (forward_refusal policy defaults attrs ≡ none))
  unfolding capability_refusal
  capability_refusal-none =
      let allowed = effective policy.allowed defaults.allowed in
      (
        λ h. (
          ground (arith, elem_iff attrs.action allowed, elem_iff (codes "*") allowed),
          ground arith,
        ),
        λ h. ground (arith, elem_iff attrs.action allowed, elem_iff (codes "*") allowed),
      )

  forward_refusal-Capable :
      forward_refusal policy defaults attrs ≡ none → Listed → Capable policy defaults attrs
  forward_refusal-Capable h listed = record {
    capability = listed;
    local = λ e. (forward_refusal-local e).0 h;
    remote = λ e. (forward_refusal-remote e).0 h;
  }

  Capable-forward_refusal :
      Capable policy defaults attrs → forward_refusal policy defaults attrs ≡ none
  Capable-forward_refusal c = elim (Bool-cases (attrs.action == capability_local_forward)) [
    | inl local ↦
        let e = (==_iff attrs.action capability_local_forward).0 local in
        (forward_refusal-local e).1 (c.local e)
    | inr not_local ↦ elim (Bool-cases (attrs.action == capability_remote_forward)) [
      | inl remote ↦
          let e = (==_iff attrs.action capability_remote_forward).0 remote in
          (forward_refusal-remote e).1 (c.remote e)
      | inr other ↦
          forward_refusal-other (ground (arith, ==_iff attrs.action capability_local_forward))
            (ground (arith, ==_iff attrs.action capability_remote_forward))
    ]
  ]

  pub capability_refusal_iff :
      (capability_refusal policy defaults attrs ≡ none) ↔ Capable policy defaults attrs
  capability_refusal_iff = (
    λ h.
        let (listed, through) = capability_refusal-none.0 h in
        forward_refusal-Capable through listed,
    λ c. capability_refusal-none.1 (c.capability, Capable-forward_refusal c),
  )
