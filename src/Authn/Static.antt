-- ===== src/Authn/Static.antt =====
-- pkg/authn/password.go and publickey.go: the static authenticators. ssh.ParseAuthorizedKey, with
-- the marshaled key for its result, is a parameter.
use kube_ssh.Base.{
  List, [], ◌∷◌, ◌≡◌, refl, ◌≢◌, ◌↔◌, inl, inr, false, auth_not_provided, internal, Result, ok, err,
  ◌>>=◌, >>=-eq-ok, if◌then◌else◌, ◌||◌, All, In, subst, ok_inj, arith, Bool-cases,
}
use kube_ssh.Text.{Str, codes, ◌==◌, is_empty}
use kube_ssh.Text.Laws.{==_iff}
use kube_ssh.Authn.{Entry, AuthenticateInfo}

-- passwordEntry and authorizedEntry: `secret` is the field password or marshaledKey.
pub record Known : Type 0 where
  pub info : AuthenticateInfo
  pub secret : Str

abbrev pub info_of : Str → Entry → AuthenticateInfo
info_of method e = record {
  user = record {
    id = [];
    name = e.subject;
    email = e.subject;
    email_verified = false;
    groups = e.groups;
    extra = [];
  };
  method = method;
  target_hints = [];
  extra = [];
}

-- One round of the loop of NewStaticPasswordAuthenticator.
unfoldable pub checked_entry : Entry → Result Known
checked_entry e =
    if is_empty e.subject || is_empty e.secret
    then err internal
    else ok (record { info = info_of (codes "password") e; secret = e.secret })

-- NewStaticPasswordAuthenticator
unfoldable pub new_password : List Entry → Result (List Known)
unfolding checked_entry
new_password [] = ok []
new_password (e ∷ entries) = do
  known ← checked_entry e
  rest ← new_password entries
  ok (known ∷ rest)

-- NewStaticPublicKeyAuthenticator
unfoldable pub new_public_key : (Str → Result Str) → List Entry → Result (List Known)
new_public_key parse_authorized_key [] = ok []
new_public_key parse_authorized_key (e ∷ entries) = do
  key ← (elim (parse_authorized_key e.secret) [ ok key ↦ ok key | err x ↦ err internal ])
  rest ← new_public_key parse_authorized_key entries
  ok (record { info = info_of (codes "publickey") e; secret = key } ∷ rest)

-- AuthenticateBasic of the password list and AuthenticatePublicKey of the key list: a scan for the
-- presented secret, the password or the marshaled key.
unfoldable pub authenticate : List Known → Str → Result AuthenticateInfo
unfolding ◌==◌
authenticate [] presented = err auth_not_provided
authenticate (e ∷ entries) presented =
    if e.secret == presented then ok e.info else authenticate entries presented

-- `Found known presented info`: the first entry with the presented secret carries `info`.
pub data Found (presented : Str) (info : AuthenticateInfo) : List Known → Type 0 where
  here :
      {e : Known} {rest : List Known}
      → e.secret ≡ presented
      → e.info ≡ info
      → Found presented info (e ∷ rest)
  there :
      {e : Known} {rest : List Known}
      → e.secret ≢ presented
      → Found presented info rest
      → Found presented info (e ∷ rest)

authenticate-Found :
    (known : List Known) (presented : Str) {info : AuthenticateInfo}
    → authenticate known presented ≡ ok info
    → Found presented info known
unfolding authenticate
authenticate-Found [] presented h = absurd (ground arith)
authenticate-Found (e ∷ known) presented h = elim (Bool-cases (e.secret == presented)) [
  | inl at ↦ here ((==_iff e.secret presented).0 at) (ground arith)
  | inr other ↦
      there (ground (arith, ==_iff e.secret presented))
        (authenticate-Found known presented (rw other at h))
]

Found-authenticate :
    {presented : Str} {info : AuthenticateInfo} {known : List Known}
    → Found presented info known
    → authenticate known presented ≡ ok info
unfolding authenticate
Found-authenticate {presented} (here {e = e} s i) = ground (arith, ==_iff e.secret presented)
Found-authenticate {presented} (there {e = e} n d) =
    ground (arith, ==_iff e.secret presented, Found-authenticate d)

-- The static authenticator accepts exactly the secrets of its list, as the identity of the first
-- entry that has the secret.
pub authenticate_iff :
    (known : List Known) (presented : Str) (info : AuthenticateInfo)
    → (authenticate known presented ≡ ok info) ↔ Found presented info known
authenticate_iff known presented info = (authenticate-Found known presented, Found-authenticate)

-- Where an entry of the list comes from: a configured entry with a subject and a password.
abbrev FromPassword : List Entry → Known → Type 0
FromPassword entries k =
    (e : Entry) × In e entries
    × (e.secret ≡ k.secret)
    × (k.info ≡ info_of (codes "password") e)
    × (e.subject ≢ [])
    × (k.secret ≢ [])

FromPassword-tail :
    (x : Entry) (entries : List Entry) (known : List Known)
    → All (FromPassword entries) known
    → All (FromPassword (x ∷ entries)) known
FromPassword-tail x entries [] ps = tt
FromPassword-tail x entries (k ∷ known) (p, ps) =
    ((p.0, inr p.1, p.2, p.3, p.4, p.5), FromPassword-tail x entries known ps)

checked_entry-From :
    (e : Entry) (entries : List Entry) (k : Known)
    → checked_entry e ≡ ok k
    → FromPassword (e ∷ entries) k
unfolding checked_entry
checked_entry-From e entries k h =
    (e, inl refl, ground arith, ground arith, ground arith, ground arith)

new_password-From :
    (entries : List Entry) (known : List Known)
    → new_password entries ≡ ok known
    → All (FromPassword entries) known
unfolding new_password
new_password-From [] known h = subst (All (FromPassword [])) (ok_inj h) tt
new_password-From (e ∷ entries) known h =
    let (k, e1, h1) = >>=-eq-ok (checked_entry e) _ h in
    let (rest, e2, h2) = >>=-eq-ok (new_password entries) _ h1 in
    subst (All (FromPassword (e ∷ entries))) (ok_inj h2) (
      checked_entry-From e entries k e1,
      FromPassword-tail e entries rest (new_password-From entries rest e2),
    )

Found-From :
    (entries : List Entry) {presented : Str} {info : AuthenticateInfo} {known : List Known}
    → All (FromPassword entries) known
    → Found presented info known
    → FromPassword entries (record { info = info; secret = presented })
Found-From entries ps (here s i) =
    subst (FromPassword entries) (λ j. record { info = i j; secret = s j }) ps.0
Found-From entries ps (there n d) = Found-From entries ps.1 d

-- A password that the static authenticator accepts is the non-empty password of a configured entry,
-- and the identity is that entry's, under its non-empty subject.
pub new_password-accepts :
    (entries : List Entry) (known : List Known) (presented : Str) (info : AuthenticateInfo)
    → new_password entries ≡ ok known
    → authenticate known presented ≡ ok info
    → (e : Entry) × In e entries
      × (e.secret ≡ presented)
      × (info ≡ info_of (codes "password") e)
      × (e.subject ≢ [])
      × (presented ≢ [])
new_password-accepts entries known presented info built accepted =
    Found-From entries (new_password-From entries known built)
      (authenticate-Found known presented accepted)
