-- ===== src/Authn/Webhook.antt =====
-- pkg/authn/webhook.go. The HTTP client is a parameter: what it posts back to one request.
use kube_ssh.Base.{
  Bool, true, not, List, [], ◌≡◌, ◌≢◌, Result, ok, err, internal, map, if◌then◌else◌, ◌>>=◌,
  >>=-eq-ok, arith,
}
use kube_ssh.Text.{Str, codes, is_empty}
use kube_ssh.Dict.{Dict, get_or}
use kube_ssh.Target.{TargetOption, Hint}
use kube_ssh.Authn.{UserInfo, AuthenticateInfo}

-- The credential of WebhookAuthenticateRequest. `authorized_key` is the trimmed result of
-- ssh.MarshalAuthorizedKey, and `fingerprint` that of ssh.FingerprintSHA256.
pub data Credential : Type 0 where
  password : Str → Credential
  public_key : (authorized_key fingerprint : Str) → Credential

pub record WebhookRequest : Type 0 where
  pub ssh_user : Str
  pub credential : Credential

pub record WebhookTargetHint : Type 0 where
  pub kind : Str
  pub options : List TargetOption
  pub extra : Dict (List Str)

pub record WebhookResponse : Type 0 where
  pub authenticated : Bool
  pub user : UserInfo
  pub method : Str
  pub target_hints : List WebhookTargetHint
  pub reason : Str
  pub error : Str

hint_of : WebhookTargetHint → Hint
unfolding get_or
hint_of h = record {
  kind = h.kind;
  options = h.options;
  aliases = get_or (codes "aliases") h.extra [];
}

unfoldable pub target_hints_from_webhook : List WebhookTargetHint → List Hint
unfolding hint_of
target_hints_from_webhook = map hint_of

unfoldable pub conclude : WebhookResponse → Result AuthenticateInfo
unfolding target_hints_from_webhook
conclude resp =
    if not (is_empty resp.error)
    then err internal
    else if not resp.authenticated
    then err internal
    else if is_empty resp.user.name
    then err internal
    else ok (record {
      user = resp.user;
      method = if is_empty resp.method then codes "webhook" else resp.method;
      target_hints = target_hints_from_webhook resp.target_hints;
      extra = [];
    })

module _ (post : WebhookRequest → Result WebhookResponse) where
  unfoldable pub authenticate : WebhookRequest → Result AuthenticateInfo
  unfolding conclude
  authenticate req = do resp ← post req; conclude resp

  -- An identity from the webhook is the one of its response, which says "authenticated", has a user
  -- name and no error; it comes with a method and with no extra attributes.
  pub authenticate-ok :
      (req : WebhookRequest) (info : AuthenticateInfo)
      → authenticate req ≡ ok info
      → (resp : WebhookResponse) × (post req ≡ ok resp)
        × (resp.authenticated ≡ true)
        × (resp.error ≡ [])
        × (info.user ≡ resp.user)
        × (info.user.name ≢ [])
        × (info.method ≢ [])
        × (info.extra ≡ [])
  unfolding authenticate conclude
  authenticate-ok req info h =
      let (resp, e, h1) = >>=-eq-ok (post req) conclude h in
      (resp, e, ground arith, ground arith, ground arith, ground arith, ground arith, ground arith)
