-- ===== src/Gateway/Login/Offered.antt =====
-- Which callbacks the client is offered.
use kube_ssh.Base.{
  ◌≡◌, ◌⊎◌, inl, inr, Bool, true, false, ◌&&◌, List, Option, none, some, ok, >>=-eq-ok, In, arith,
  ok_inj, ap, subst, ◌∙◌, sym,
}
use kube_ssh.Text.{Str, elem}
use kube_ssh.Text.Laws.{elem_iff}
use kube_ssh.Access.Authorizer.{AccessGetter}
use kube_ssh.Access.Methods.{authentication_methods}
use kube_ssh.Gateway.Login.{
  public_key_method, password_method, ServerAuthCallbacks, next_with, next_of, chosen,
  select_methods, selected_for, no_client_auth_callback,
}

-- A method that is enabled, and that the Access takes where the user name finds one.
abbrev pub Offers : List Str → Option AccessGetter → Str → Str → Type 0
Offers enabled none user method = In method enabled
Offers enabled (some store) user method =
    In method enabled
    × ((methods : List Str)
        → authentication_methods store user ≡ ok (some methods)
        → In method methods)

next_with-ok :
    (public_key password : Bool) (next : ServerAuthCallbacks)
    → next_with public_key password ≡ ok next
    → ((next.public_key_callback ≡ true) ⊎ (next.password_callback ≡ true))
      × (next.public_key_callback ≡ public_key)
      × (next.password_callback ≡ password)
unfolding next_with
next_with-ok true password next h =
    let e = ok_inj h in
    (
      inl (ap (λ (n : ServerAuthCallbacks). n.public_key_callback) (sym e)),
      ap (λ (n : ServerAuthCallbacks). n.public_key_callback) (sym e),
      ap (λ (n : ServerAuthCallbacks). n.password_callback) (sym e),
    )
next_with-ok false true next h =
    let e = ok_inj h in
    (
      inr (ap (λ (n : ServerAuthCallbacks). n.password_callback) (sym e)),
      ap (λ (n : ServerAuthCallbacks). n.public_key_callback) (sym e),
      ap (λ (n : ServerAuthCallbacks). n.password_callback) (sym e),
    )
next_with-ok false false next h = cc

both :
    (method : Str) (enabled methods : List Str)
    → (elem method enabled && elem method methods) ≡ true
    → In method enabled × In method methods
both method enabled methods h =
    ((elem_iff method enabled).0 (ground arith), (elem_iff method methods).0 (ground arith))

selected-Offers :
    (enabled methods : List Str) (user method : Str) (store : Option AccessGetter)
    → selected_for enabled user store ≡ ok methods
    → In method enabled × In method methods
    → Offers enabled store user method
unfolding selected_for chosen select_methods
selected-Offers enabled methods user method none h (on, _) = on
selected-Offers enabled methods user method (some store) h (on, selected) = (on, taken)
  where
    taken :
        (offered : List Str)
        → authentication_methods store user ≡ ok (some offered)
        → In method offered
    taken offered found =
        let same : offered ≡ methods = ok_inj (rw found at h) in
        subst (λ ms. In method ms) (sym same) selected

-- Where the first callback offers something, it is the public key or the password method, or both, and
-- each one that is offered is enabled and, where the user name finds an Access, taken by it.
pub no_client_auth_callback-Offers :
    (enabled : List Str) (store : Option AccessGetter) (user : Str) (next : ServerAuthCallbacks)
    → no_client_auth_callback enabled store user ≡ ok next
    → ((next.public_key_callback ≡ true) ⊎ (next.password_callback ≡ true))
      × (next.public_key_callback ≡ true → Offers enabled store user public_key_method)
      × (next.password_callback ≡ true → Offers enabled store user password_method)
unfolding no_client_auth_callback next_of
no_client_auth_callback-Offers enabled store user next h =
    let (methods, found, e) = >>=-eq-ok (selected_for enabled user store) (next_of enabled) h in
    let (any, keys, passwords) = next_with-ok _ _ next e in
    (
      any,
      λ on.
          selected-Offers enabled methods user public_key_method store found
            (both public_key_method enabled methods (sym keys ∙ on)),
      λ on.
          selected-Offers enabled methods user password_method store found
            (both password_method enabled methods (sym passwords ∙ on)),
    )
