-- ===== src/Authz/Webhook.antt =====
-- pkg/authz/webhook.go. The HTTP client is a parameter: what it posts back to one request.
use kube_ssh.Base.{
  ◌≡◌, ◌↔◌, [], arith, Result, ok, err, internal, if◌then◌else◌, ◌||◌, Result-cases, inl, inr,
}
use kube_ssh.Text.{Str, codes, is_empty, ◌==◌}
use kube_ssh.Text.Laws.{==_iff}
use kube_ssh.Authn.{UserInfo}
use kube_ssh.Authz.{
  Attributes, Authorizer, Request, Answer, answer, failure, no_opinion, deny, allow, Reason, empty,
  text,
}

pub record WebhookRequest : Type 0 where
  pub user : UserInfo
  pub attributes : Attributes

pub record WebhookResponse : Type 0 where
  pub decision : Str
  pub reason : Str
  pub error : Str

abbrev reason_of : Str → Reason
reason_of s = if is_empty s then empty else text s

unfoldable pub conclude : Result WebhookResponse → Answer
unfolding ◌==◌
conclude (err e) = failure no_opinion empty e
conclude (ok resp) =
    let reason = reason_of resp.reason in
    if is_empty resp.error
    then (if resp.decision == codes "Allow"
        then answer allow reason
        else if resp.decision == codes "Deny"
        then answer deny reason
        else if (resp.decision == codes "NoOpinion") || is_empty resp.decision
        then answer no_opinion reason
        else failure no_opinion reason internal)
    else failure no_opinion reason internal

module _ (post : WebhookRequest → Result WebhookResponse) where
  unfoldable pub authorize : Authorizer
  unfolding conclude
  authorize req = conclude (post (record { user = req.user; attributes = req.attributes }))

  -- The answer is "allow" exactly when the call of the webhook succeeds with no error text and the
  -- decision "Allow".
  pub allow_iff :
      (req : Request)
      → ((authorize req).decision ≡ allow) ↔ (
          (resp : WebhookResponse) × (post (record { user = req.user; attributes = req.attributes })
            ≡ ok resp)
          × (resp.error ≡ [])
          × (resp.decision ≡ codes "Allow"))
  unfolding authorize conclude
  allow_iff req = (
    λ h. elim (Result-cases (post (record { user = req.user; attributes = req.attributes }))) [
      | inl (resp, e) ↦
          (resp, e, ground arith, ground (arith, ==_iff resp.decision (codes "Allow")))
      | inr (x, e) ↦ absurd (ground arith)
    ],
    λ r. ground (arith, ==_iff r.0.decision (codes "Allow")),
  )
