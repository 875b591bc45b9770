-- ===== src/Access/Credentials/Login.antt =====
-- pkg/accesspolicy: the login through an Access and the target that follows it.
use kube_ssh.Base.{◌≡◌, refl, sym, subst, ◌∙◌, ◌≢◌, [], some, ok, >>=-eq-ok, ok_inj}
use kube_ssh.Text.{Str, codes, ◌==◌}
use kube_ssh.Dict.{lookup, get_extra}
use kube_ssh.Authn.{AuthenticateInfo}
use kube_ssh.Access.{Access, extra_access_namespace, extra_access_name}
use kube_ssh.Access.Authorizer.{AccessGetter}
use kube_ssh.Access.Locator.{Locator, resolve_access_locator, resolve_requested_access}
use kube_ssh.Access.Locator.Finds.{resolve_access_locator-Finds}
use kube_ssh.Access.Locator.Addresses.{resolve_requested_access_iff}
use kube_ssh.Access.Credentials.{
  PolicyCache, CredentialMatch, get, match_password, auth_extra, authenticate_basic,
}
use kube_ssh.Access.Credentials.Matched.{match_password-located}

-- The store keeps an object under its own namespace and name, and neither is empty.
pub record IsKeyed (store : AccessGetter) : Type 0 where
  pub own_key :
      (namespace name : Str) (a : Access)
      → store namespace name ≡ ok a
      → (a.namespace ≡ namespace) × (a.name ≡ name)
  pub named :
      (namespace name : Str) (a : Access)
      → store namespace name ≡ ok a
      → (a.namespace ≢ []) × (a.name ≢ [])

auth_extra-namespace :
    (m : CredentialMatch) (type : Str)
    → get_extra (auth_extra m type) extra_access_namespace ≡ m.access.namespace
unfolding auth_extra get_extra lookup ◌==◌
auth_extra-namespace m type = refl

auth_extra-name :
    (m : CredentialMatch) (type : Str)
    → get_extra (auth_extra m type) extra_access_name ≡ m.access.name
unfolding auth_extra get_extra lookup ◌==◌
auth_extra-name m type = refl

requested-same :
    (store : AccessGetter) (ssh_user type : Str) (l : Locator) (m : CredentialMatch)
    → IsKeyed store
    → resolve_access_locator store ssh_user ≡ ok (some (l, m.access))
    → resolve_requested_access store ssh_user (auth_extra m type) ≡ ok (some (l, m.access))
requested-same store ssh_user type l m keyed h =
    let (stands, stored) = resolve_access_locator-Finds store ssh_user l m.access h in
    let (ns, nm) = keyed.own_key l.namespace l.access m.access stored in
    let (full, full') = keyed.named l.namespace l.access m.access stored in
    let en = auth_extra-namespace m type in
    let em = auth_extra-name m type in
    (resolve_requested_access_iff store ssh_user (auth_extra m type) l m.access
        (λ e. full (sym en ∙ e)) (λ e. full' (sym em ∙ e))).1
      (sym ns ∙ sym en, sym nm ∙ sym em, stands, stored)

-- After a password login through an Access, the target request of the same user name with the context
-- that the login left finds the same Access and locator, in a cache whose objects stand under their
-- own names.
pub authenticate_basic-target :
    (c : PolicyCache) (ssh_user password : Str) (info : AuthenticateInfo)
    → IsKeyed (get c)
    → authenticate_basic c ssh_user password ≡ ok info
    → (l : Locator) × (a : Access) × (resolve_access_locator (get c) ssh_user ≡ ok (some (l, a)))
      × (resolve_requested_access (get c) ssh_user info.extra ≡ ok (some (l, a)))
unfolding authenticate_basic
authenticate_basic-target c ssh_user password info keyed h =
    let (m, e, h1) = >>=-eq-ok (match_password c ssh_user password) _ h in
    let (l, at) = match_password-located c ssh_user password m e in
    (
      l,
      m.access,
      at,
      subst (λ j. resolve_requested_access (get c) ssh_user j.extra ≡ ok (some (l, m.access)))
          (ok_inj h1) (requested-same (get c) ssh_user (codes "password") l m keyed at),
    )
