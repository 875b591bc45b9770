-- ===== src/Gateway/Login.antt =====
-- pkg/gateway/authentication.go: which authentication methods a connection is offered; and
-- buildAuthenticator and buildResolver of pkg/gateway/dependencies.go.
pub mod Methods
pub mod Offered
use kube_ssh.Base.{
  Bool, true, false, not, ◌||◌, ◌&&◌, List, [], ◌∷◌, ◌++◌, Option, none, some, Result, ok, err,
  internal, external, ◌>>=◌, if◌then◌else◌,
}
use kube_ssh.Text.{Str, codes, ◌==◌, elem, is_empty}
use kube_ssh.Authn.{AuthenticateInfo, Entry}
use kube_ssh.Authn.Chain.{Authenticator, chain, anonymous}
use kube_ssh.Authn.Static
use kube_ssh.Authn.Static.{Known, new_password, new_public_key}
use kube_ssh.Access.Authorizer.{AccessGetter}
use kube_ssh.Access.Methods.{authentication_methods}
use kube_ssh.Target
use kube_ssh.Target.{Resolver, ResolveInput, Target, resolve_hint}

abbrev pub public_key_method : Str
public_key_method = codes "publickey"

abbrev pub password_method : Str
password_method = codes "password"

unfoldable pub is_supported : Str → Bool
unfolding ◌==◌
is_supported method = method == public_key_method || method == password_method

-- The loop, with the methods seen before.
unfoldable pub check_methods : List Str → List Str → Result {0} Unit
unfolding is_supported elem
check_methods seen [] = ok tt
check_methods seen (method ∷ methods) =
    if not (is_supported method)
    then err internal
    else if elem method seen
    then err internal
    else check_methods (method ∷ seen) methods

-- A nil slice is `none`.
abbrev pub given_methods : Option (List Str) → List Str
given_methods none = public_key_method ∷ password_method ∷ []
given_methods (some methods) = methods

unfoldable pub enabled_authentication_methods : Option (List Str) → Result (List Str)
unfolding check_methods
enabled_authentication_methods methods =
    if is_empty (given_methods methods)
    then err internal
    else check_methods [] (given_methods methods) >>= λ _. ok (given_methods methods)

-- Which callbacks the partial success carries.
pub record ServerAuthCallbacks : Type 0 where
  pub public_key_callback : Bool
  pub password_callback : Bool

next_with : Bool → Bool → Result ServerAuthCallbacks
next_with public_key password =
    if not public_key && not password
    then err internal
    else ok (record { public_key_callback = public_key; password_callback = password })

unfoldable pub next_of : List Str → List Str → Result ServerAuthCallbacks
unfolding elem next_with
next_of enabled methods =
    next_with (elem public_key_method enabled && elem public_key_method methods)
      (elem password_method enabled && elem password_method methods)

select_methods : List Str → Option (List Str) → List Str
select_methods enabled none = enabled
select_methods enabled (some methods) = methods

chosen : List Str → Result (Option (List Str)) → Result (List Str)
unfolding select_methods
chosen enabled (err error) = err internal
chosen enabled (ok found) = ok (select_methods enabled found)

selected_for : List Str → Str → Option AccessGetter → Result (List Str)
unfolding chosen authentication_methods
selected_for enabled user none = ok enabled
selected_for enabled user (some store) = chosen enabled (authentication_methods store user)

-- NoClientAuthCallback; a nil store is `none`. It never succeeds: the callbacks come with a partial
-- success.
unfoldable pub no_client_auth_callback :
    List Str → Option AccessGetter → Str → Result ServerAuthCallbacks
unfolding next_of selected_for
no_client_auth_callback enabled store user = selected_for enabled user store >>= next_of enabled

-- An authenticator with its two methods; the credential is what each is called with.
pub record SshAuthenticator (Key Password : Type 0) : Type 0 where
  pub public_key : Authenticator Key
  pub basic : Authenticator Password

pub record AuthenticationOptions : Type 0 where
  pub authorized_keys : List Entry
  pub passwords : List Entry
  pub webhook_enabled : Bool
  pub anonymous : Bool

optional : {A : Type 0} → Option A → List A
optional none = []
optional (some a) = a ∷ []

-- What is read of the credentials: the marshaled key, and the password.
module _ {Key Password : Type 0} (marshaled : Key → Str) (secret : Password → Str) where
  declines : {Credential : Type 0} → Authenticator Credential
  unfolding chain
  declines = chain []

  static_key : List Known → SshAuthenticator Key Password
  unfolding Static.authenticate declines
  static_key known = record {
    public_key = λ key. Static.authenticate known (marshaled key);
    basic = declines;
  }

  static_password : List Known → SshAuthenticator Key Password
  unfolding Static.authenticate declines
  static_password known = record {
    public_key = declines;
    basic = λ value. Static.authenticate known (secret value);
  }

  anyone : SshAuthenticator Key Password
  unfolding anonymous
  anyone = record { public_key = anonymous; basic = anonymous }

  new_chain : List (SshAuthenticator Key Password) → SshAuthenticator Key Password
  unfolding chain
  new_chain all = record { public_key = chain (keys all); basic = chain (passwords all) }
    where
      keys : List (SshAuthenticator Key Password) → List (Authenticator Key)
      keys [] = []
      keys (a ∷ rest) = a.public_key ∷ keys rest

      passwords : List (SshAuthenticator Key Password) → List (Authenticator Password)
      passwords [] = []
      passwords (a ∷ rest) = a.basic ∷ passwords rest

  webhook_of :
      Bool → Result (SshAuthenticator Key Password) → Result (List (SshAuthenticator Key Password))
  webhook_of false new_webhook = ok []
  webhook_of true new_webhook = new_webhook >>= λ webhook. ok (webhook ∷ [])

  -- The Access authenticator may be nil; the webhook's construction gives `new_webhook`.
  unfoldable pub build_authenticator :
      (Str → Result Str)
      → AuthenticationOptions
      → Option (SshAuthenticator Key Password)
      → Result (SshAuthenticator Key Password)
      → Result (SshAuthenticator Key Password)
  unfolding new_public_key new_password static_key static_password optional webhook_of anyone
      new_chain
  build_authenticator parse_authorized_key opts access new_webhook =
      new_public_key parse_authorized_key opts.authorized_keys >>= λ keys.
      new_password opts.passwords >>= λ passwords.
      webhook_of opts.webhook_enabled new_webhook >>= λ webhook. ok (
        new_chain (
          static_key keys
          ∷ static_password passwords
          ∷ (optional access ++ (webhook ++ (if opts.anonymous then anyone ∷ [] else [])))))

-- buildResolver: the Access resolver, where there is one, before the direct one and the hints.
unfoldable pub build_resolver : {S : Type 0} → Option (Resolver S) → Resolver S → Resolver S
unfolding optional resolve_hint Target.chain
build_resolver access direct =
    Target.chain (optional access ++ (direct ∷ (λ s input. (s, resolve_hint input)) ∷ []))
