-- ===== src/Access/Authorizer/Granted.antt =====
-- What an Access grants.
use kube_ssh.Base.{
  true, [], ◌≡◌, refl, ◌≢◌, ◌↔◌, ◌⊎◌, inl, inr, none, some, Result, ok, err, arith, Option-cases,
}
use kube_ssh.Text.{Str, codes}
use kube_ssh.Dict.{get_extra}
use kube_ssh.Authz.{Attributes, Request, allow}
use kube_ssh.Authz.Sar.{resource_value}
use kube_ssh.Access.{
  Access, AccessCredential, extra_access_namespace, extra_access_name, extra_credential_user,
  container_allowed, find_credential,
}
use kube_ssh.Access.Authorizer.{
  AccessGetter, CapabilityDefaults, capability_refusal, decide, decide_for, authorize,
}
use kube_ssh.Access.Authorizer.Capable.{
  Capable, Admits, container_allowed_iff, capability_refusal_iff,
}

-- What stands behind a request that the Access authorizer allows: the identity of an Access and a
-- credential in the authentication context, both still there, a container that both lists admit (if
-- the target names one), and a capability that the policy permits.
pub record Granted (store : AccessGetter) (defaults : CapabilityDefaults) (req : Request)
    : Type 0 where
  pub identified :
      (get_extra req.auth_extra extra_access_namespace ≢ [])
      × (get_extra req.auth_extra extra_access_name ≢ [])
      × (get_extra req.auth_extra extra_credential_user ≢ [])
  pub access : Access
  pub current :
      store
        (get_extra req.auth_extra extra_access_namespace)
        (get_extra req.auth_extra extra_access_name)
      ≡ ok access
  pub credential : AccessCredential
  pub found :
      find_credential access (get_extra req.auth_extra extra_credential_user) ≡ some credential
  pub container :
      let c = resource_value req.attributes.resources (codes "containers") in
      (c ≡ []) ⊎ (Admits access.spec.containers c × Admits credential.containers c)
  pub capable : Capable credential.capabilities defaults req.attributes

module _ (defaults : CapabilityDefaults) (access : Access) (credential : AccessCredential)
    (attrs : Attributes) where
  abbrev c : Str
  c = resource_value attrs.resources (codes "containers")

  decide-tests : ((decide defaults access credential attrs).decision ≡ allow) ↔ (
      ((c ≡ [])
        ⊎ ((container_allowed access.spec.containers c ≡ true)
            × (container_allowed credential.containers c ≡ true)))
      × (capability_refusal credential.capabilities defaults attrs ≡ none))
  unfolding decide
  decide-tests = (λ h. (ground arith, ground arith), λ h. ground arith)

  decide-allow : ((decide defaults access credential attrs).decision ≡ allow) ↔ (
      ((c ≡ []) ⊎ (Admits access.spec.containers c × Admits credential.containers c))
      × Capable credential.capabilities defaults attrs)
  decide-allow = (
    λ h. let (contained, through) = decide-tests.0 h in (admitted contained, capable.0 through),
    λ h. decide-tests.1 (tested h.0, capable.1 h.1),
  )
    where
      outer : (container_allowed access.spec.containers c ≡ true) ↔ Admits access.spec.containers c
      outer = container_allowed_iff access.spec.containers c

      inner : (container_allowed credential.containers c ≡ true) ↔ Admits credential.containers c
      inner = container_allowed_iff credential.containers c

      capable :
          (capability_refusal credential.capabilities defaults attrs ≡ none)
          ↔ Capable credential.capabilities defaults attrs
      capable = capability_refusal_iff credential.capabilities defaults attrs

      admitted :
          ((c ≡ [])
            ⊎ ((container_allowed access.spec.containers c ≡ true)
                × (container_allowed credential.containers c ≡ true)))
          → ((c ≡ []) ⊎ (Admits access.spec.containers c × Admits credential.containers c))
      admitted (inl e) = inl e
      admitted (inr p) = inr (outer.0 p.0, inner.0 p.1)

      tested :
          ((c ≡ []) ⊎ (Admits access.spec.containers c × Admits credential.containers c))
          → ((c ≡ [])
              ⊎ ((container_allowed access.spec.containers c ≡ true)
                  × (container_allowed credential.containers c ≡ true)))
      tested (inl e) = inl e
      tested (inr p) = inr (outer.1 p.0, inner.1 p.1)

module _ (store : AccessGetter) (defaults : CapabilityDefaults) (req : Request) where
  abbrev namespace : Str
  namespace = get_extra req.auth_extra extra_access_namespace

  abbrev name : Str
  name = get_extra req.auth_extra extra_access_name

  abbrev username : Str
  username = get_extra req.auth_extra extra_credential_user

  authorize-tests :
      (authorize store defaults req).decision ≡ allow
      → ((namespace ≢ []) × (name ≢ []) × (username ≢ []))
        × ((decide_for defaults (store namespace name) username req.attributes).decision ≡ allow)
  unfolding authorize
  authorize-tests h = ((ground arith, ground arith, ground arith), ground arith)

  decide_for-found :
      (r : Result Access)
      → (decide_for defaults r username req.attributes).decision ≡ allow
      → (access : Access) × (r ≡ ok access)
        × (credential : AccessCredential) × (find_credential access username ≡ some credential)
        × ((decide defaults access credential req.attributes).decision ≡ allow)
  unfolding decide_for
  decide_for-found (err e) h = absurd (ground arith)
  decide_for-found (ok access) h = elim (Option-cases (find_credential access username)) [
    | inl missing ↦ absurd (ground arith)
    | inr (credential, e) ↦ (access, refl, credential, e, rw (e, decide_for) at h)
  ]

  authorize-Granted : (authorize store defaults req).decision ≡ allow → Granted store defaults req
  authorize-Granted h =
      let (identified, decided) = authorize-tests h in
      let (access, current, credential, found, allowed) =
        decide_for-found (store namespace name) decided in
      let (container, capable) =
        (decide-allow defaults access credential req.attributes).0 allowed in
      record {
        identified = identified;
        access = access;
        current = current;
        credential = credential;
        found = found;
        container = container;
        capable = capable;
      }

  Granted-authorize : Granted store defaults req → (authorize store defaults req).decision ≡ allow
  unfolding authorize decide_for
  Granted-authorize g =
      let allowed =
        (decide-allow defaults g.access g.credential req.attributes).1 (g.container, g.capable) in
      let (n, m, u) = g.identified in ground arith

  -- The Access authorizer allows exactly the requests that the Access grants: the Access that the
  -- login names is in the store, it has the credential of the login, Access and credential admit the
  -- container where one is named, and the credential's policy, or else the defaults, permit the capability.
  pub authorize_iff : ((authorize store defaults req).decision ≡ allow) ↔ Granted store defaults req
  authorize_iff = (authorize-Granted, Granted-authorize)
