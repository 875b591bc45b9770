-- ===== src/Authn.antt =====
-- pkg/authn/authn.go: identities, and the entries of the static configuration.
use kube_ssh.Base.{
  Bool, List, [], ◌∷◌, ◌++◌, ◌≡◌, refl, ◌≢◌, ◌↔◌, Option, none, some, Result, ok, err, internal,
  if◌then◌else◌, ◌||◌, false, arith, Option-cases, inl, inr,
}
use kube_ssh.Text.{Str, cut, contains, is_empty}
use kube_ssh.Text.Laws.{cut-eq, cut-append}
use kube_ssh.Dict.{Dict}
use kube_ssh.Target.{Hint}
pub mod Static
pub mod Chain
pub mod Webhook

pub record UserInfo : Type 0 where
  pub id : Str
  pub name : Str
  pub email : Str
  pub email_verified : Bool
  pub groups : List Str
  pub extra : Dict (List Str)

pub record AuthenticateInfo : Type 0 where
  pub user : UserInfo
  pub method : Str
  pub target_hints : List Hint
  pub extra : Dict (List Str)

-- AuthorizedKeyEntry and PasswordEntry: `secret` is the field PublicKey or Password.
pub record Entry : Type 0 where
  pub subject : Str
  pub secret : Str
  pub groups : List Str

-- ParseAuthorizedKeyEntry and ParsePasswordEntry are this one function.
unfoldable pub parse_entry : Str → Result Entry
unfolding cut
parse_entry value = elim (cut b'=' value) [
  | none ↦ err internal
  | some (subject, secret) ↦
      if is_empty subject || is_empty secret
      then err internal
      else ok (record { subject = subject; secret = secret; groups = [] })
]

-- The values that parse are subject=secret with both parts non-empty and no `=` in the subject; the
-- secret may hold more of them. Each value parses to one entry only.
pub parse_entry_iff :
    (value : Str) (entry : Entry)
    → (parse_entry value ≡ ok entry) ↔ (
        (value ≡ entry.subject ++ (b'=' ∷ entry.secret))
        × (contains b'=' entry.subject ≡ false)
        × (entry.subject ≢ [])
        × (entry.secret ≢ [])
        × (entry.groups ≡ []))
unfolding parse_entry
parse_entry_iff value entry = (
  λ h. elim (Option-cases (cut b'=' value)) [
    | inl n ↦ absurd (ground arith)
    | inr (p, e) ↦ ground (arith, cut-eq b'=' value p.0 p.1)
  ],
  λ w. ground (arith, cut-append b'=' entry.subject entry.secret),
)
