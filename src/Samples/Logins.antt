-- ===== src/Samples/Logins.antt =====
-- The theorems on logins and Access locators at concrete inputs.
use kube_ssh.Base.{
  ℕ, ◌≡◌, refl, ◌≢◌, ◌↔◌, inl, inr, true, List, [], ◌∷◌, ◌++◌, Option, none, some, Result, ok, err,
  auth_not_provided, In, get_elem?, if◌then◌else◌, arith, Bool-cases, sym, ap, subst, ◌∙◌, ok_inj,
  drop, ◌>>=◌,
}
use kube_ssh.Text.Laws.{==_iff}
use kube_ssh.Text.{Str, codes, ◌==◌}
use kube_ssh.Dict.{get_extra}
use kube_ssh.Authn.{AuthenticateInfo, Entry}
use kube_ssh.Authn.Chain.{Authenticator, anonymous}
use kube_ssh.Authn.Static
use kube_ssh.Authn.Static.{
  Known, Found, info_of, new_password, authenticate_iff, new_password-accepts,
}
use kube_ssh.Authn.Webhook
use kube_ssh.Authn.Webhook.{WebhookRequest, WebhookResponse, authenticate-ok}
use kube_ssh.Access.{
  access_key, gateway_class_name, Access, extra_access_namespace, extra_access_name,
}
use kube_ssh.Access.Locator.{Locator, resolve_access_locator, resolve_requested_access}
use kube_ssh.Access.Locator.Spelled.{Addresses}
use kube_ssh.Access.Locator.Finds.{resolve_access_locator-Finds}
use kube_ssh.Access.Locator.Addresses.{resolve_requested_access_iff}
use kube_ssh.Access.Credentials.{
  PolicyCache, accepted, accept_access, Cached, object, missing, CredentialMatch, get,
  match_password, match_public_key, credential_passwords, credential_public_keys,
  authenticate_basic, match_user, auth_extra,
}
use kube_ssh.Access.Credentials.Matching.{Holds}
use kube_ssh.Access.Credentials.Matched.{
  match_password-Holds, match_password_unique, match_public_key-Holds,
}
use kube_ssh.Access.Methods.{authentication_methods, match_password-offered}
use kube_ssh.Access.Credentials.Login.{IsKeyed, authenticate_basic-target}
use kube_ssh.Samples.{alice, app, credential_of_alice, one_access, access_extra}

abbrev entry : Entry
entry = record { subject = codes "alice"; secret = codes "pw"; groups = [] }

abbrev declining : List (Authenticator Str)
declining = (λ password. err auth_not_provided) ∷ anonymous ∷ []

abbrev known : List Known
known = record { info = info_of (codes "password") entry; secret = codes "pw" } ∷ []

new_password-accepts_example :
    (e : Entry) × In e (entry ∷ [])
    × (e.secret ≡ codes "pw")
    × (info_of (codes "password") entry ≡ info_of (codes "password") e)
    × (e.subject ≢ [])
    × (codes "pw" ≢ [])
unfolding new_password Static.authenticate
new_password-accepts_example =
    new_password-accepts (entry ∷ []) known (codes "pw") (info_of (codes "password") entry) refl
      refl

abbrev login : WebhookRequest
login = record { ssh_user = codes "dev.web"; credential = Webhook.password (codes "pw") }

abbrev response : WebhookResponse
response = record {
  authenticated = true;
  user = alice;
  method = [];
  target_hints = [];
  reason = [];
  error = [];
}

abbrev webhook_info : AuthenticateInfo
webhook_info = record { user = alice; method = codes "webhook"; target_hints = []; extra = [] }

abbrev app_alone : Locator
app_alone = record { namespace = codes "dev"; access = codes "app"; pod = []; container = [] }

resolve_access_locator-Finds_example :
    Addresses (codes "dev.app") app_alone × (one_access (codes "dev") (codes "app") ≡ ok app)
unfolding resolve_access_locator ◌==◌
resolve_access_locator-Finds_example =
    resolve_access_locator-Finds one_access (codes "dev.app") app_alone app refl

abbrev app_main : Locator
app_main = record {
  namespace = codes "dev";
  access = codes "app";
  pod = [];
  container = codes "main";
}

resolve_requested_access_iff_example :
    (resolve_requested_access one_access (codes "dev.app.main") access_extra
      ≡ ok (some (app_main, app)))
    ↔ ((codes "dev" ≡ get_extra access_extra extra_access_namespace)
        × (codes "app" ≡ get_extra access_extra extra_access_name)
        × Addresses (codes "dev.app.main") app_main
        × (one_access (codes "dev") (codes "app") ≡ ok app))
unfolding get_extra
resolve_requested_access_iff_example =
    resolve_requested_access_iff one_access (codes "dev.app.main") access_extra app_main app
      (λ e. cc) (λ e. cc)

-- The cache with the one Access dev/app.
abbrev cached : Str → Result (Cached Access)
cached key = if key == codes "dev/app" then ok (object app) else ok missing

abbrev cache : PolicyCache
cache = record {
  access_indexer = some cached;
  secret_indexer = none;
  namespace = [];
  gateway_class_name = [];
}

abbrev alice_match : CredentialMatch
alice_match = record { access = app; credential = credential_of_alice }

match_password-Holds_example :
    (codes "secret" ≢ [])
    × (l : Locator) × Addresses (codes "dev.app") l
    × (get cache l.namespace l.access ≡ ok app)
    × (i : ℕ) × (get_elem? app.spec.credentials i ≡ some credential_of_alice)
    × Holds (credential_passwords cache (codes "dev")) (codes "secret") credential_of_alice
unfolding match_password
match_password-Holds_example =
    match_password-Holds cache (codes "dev.app") (codes "secret") alice_match refl

match_password_unique_example : ◌≡◌ {A = ℕ} 0 0
unfolding match_password
match_password_unique_example =
    match_password_unique cache (codes "dev.app") (codes "secret") alice_match 0 0
      credential_of_alice credential_of_alice refl refl refl (codes "secret" ∷ [], refl, refl)
      (codes "secret" ∷ [], refl, refl)

match_public_key-Holds_example :
    (fingerprint : Str) × (◌≡◌ {A = Option Str} (some (codes "key")) (some fingerprint))
    × (l : Locator) × Addresses (codes "dev.app") l
    × (get cache l.namespace l.access ≡ ok app)
    × (i : ℕ) × (get_elem? app.spec.credentials i ≡ some credential_of_alice)
    × Holds (credential_public_keys ok cache (codes "dev")) fingerprint credential_of_alice
unfolding match_public_key
match_public_key-Holds_example =
    match_public_key-Holds ok cache (codes "dev.app") (some (codes "key")) alice_match refl

-- A cache of one namespace.
abbrev dev_cache : PolicyCache
dev_cache = record cache { namespace = codes "dev" }

dev_cache-get :
    (namespace name : Str) (a : Access)
    → get dev_cache namespace name ≡ ok a
    → namespace ≡ codes "dev"
unfolding get
dev_cache-get namespace name a h = ground (arith, ==_iff namespace (codes "dev"))

cached-app :
    (key : Str) (a : Access)
    → (cached key >>= accepted dev_cache) ≡ ok a
    → (key ≡ codes "dev/app") × (a ≡ app)
unfolding accepted accept_access gateway_class_name ◌==◌
cached-app key a h = elim (Bool-cases (key == codes "dev/app")) [
  | inl at ↦
      let same = (==_iff key (codes "dev/app")).0 at in
      (same, sym (ok_inj (subst (λ k. (cached k >>= accepted dev_cache) ≡ ok a) same h)))
  | inr away ↦ absurd (ground arith)
]

dev_cache-app :
    (namespace name : Str) (a : Access)
    → get dev_cache namespace name ≡ ok a
    → (namespace ≡ codes "dev") × (name ≡ codes "app") × (a ≡ app)
unfolding get access_key ◌==◌
dev_cache-app namespace name a h =
    let dev = dev_cache-get namespace name a h in
    let (key, same) =
      cached-app (codes "dev/" ++ name) a (subst (λ n. get dev_cache n name ≡ ok a) dev h) in
    (dev, ap (drop 4) key, same)

dev_cache-IsKeyed : IsKeyed (get dev_cache)
dev_cache-IsKeyed = record {
  own_key = λ namespace name a h.
      let (n, m, e) = dev_cache-app namespace name a h in
      (ap (λ b. b.namespace) e ∙ sym n, ap (λ b. b.name) e ∙ sym m);
  named = λ namespace name a h.
      let (n, m, e) = dev_cache-app namespace name a h in
      (
        (λ z. filled (sym (ap (λ b. b.namespace) e) ∙ z)),
        (λ z. filled (sym (ap (λ b. b.name) e) ∙ z)),
      );
}
  where
    filled : {c : ℕ} {s : Str} → (c ∷ s) ≢ []
    filled e = cc

abbrev alice_info : AuthenticateInfo
alice_info = record {
  user = match_user alice_match;
  method = codes "crd-password";
  target_hints = [];
  extra = auth_extra alice_match (codes "password");
}

authenticate_basic-target_example :
    (l : Locator) × (a : Access) × (resolve_access_locator (get dev_cache) (codes "dev.app")
      ≡ ok (some (l, a)))
    × (resolve_requested_access (get dev_cache) (codes "dev.app") alice_info.extra
        ≡ ok (some (l, a)))
unfolding authenticate_basic
authenticate_basic-target_example =
    authenticate_basic-target dev_cache (codes "dev.app") (codes "secret") alice_info
      dev_cache-IsKeyed refl

match_password-offered_example :
    (methods : List Str) × (authentication_methods (get cache) (codes "dev.app")
      ≡ ok (some methods))
    × In (codes "password") methods
unfolding match_password
match_password-offered_example =
    match_password-offered cache (codes "dev.app") (codes "secret") alice_match refl
