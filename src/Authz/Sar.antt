-- ===== src/Authz/Sar.antt =====
-- pkg/authz/authorizer_sar.go: Kubernetes RBAC behind the SSH capability. The API server is a
-- parameter: what it answers to one SubjectAccessReview.
use kube_ssh.Base.{
  List, [], ◌∷◌, ◌≡◌, ◌≢◌, inl, inr, Bool, true, none, some, arith, Option, Result, ok, err,
  internal, if◌then◌else◌, ◌||◌, not, Option-cases, Result-cases,
}
use kube_ssh.Text.{Str, codes, elem, is_empty, to_lower, ◌==◌}
use kube_ssh.Text.Laws.{==_iff}
use kube_ssh.Dict.{get_extra}
use kube_ssh.Authz.{
  AttributeResource, Attributes, Authorizer, Request, Reason, Answer, answer, failure, no_opinion,
  deny, allow, empty, text, target_incomplete, user_required, rbac_denied, capability_shell,
  capability_exec, capability_sftp, capability_scp, capability_local_forward,
  capability_remote_forward, capability_agent_forward,
}

-- authorizationv1.SubjectAccessReviewSpec, as far as this code fills it
pub record Review : Type 0 where
  pub user : Str
  pub groups : List Str
  pub namespace : Str
  pub verb : Str
  pub group : Str
  pub resource : Str
  pub subresource : Str
  pub name : Str

-- authorizationv1.SubjectAccessReviewStatus
pub record ReviewStatus : Type 0 where
  pub allowed : Bool
  pub reason : Str
  pub evaluation_error : Str

abbrev pub Client : Type 0
Client = Review → Result ReviewStatus

-- The name of the first resource of a kind, or ""; accesspolicy's resourceName is the same function.
unfoldable pub resource_value : List AttributeResource → Str → Str
unfolding ◌==◌
resource_value [] resource = []
resource_value (item ∷ items) resource =
    if item.resource == resource then item.name else resource_value items resource

-- The texts of the switch have no `k` and no `i` that a letter outside ASCII could become.
unfoldable pub is_pod_local_forward_host : Str → Bool
unfolding elem to_lower
is_pod_local_forward_host host =
    elem (to_lower host) ([] ∷ codes "localhost" ∷ codes "127.0.0.1" ∷ codes "::1" ∷ [])

unfoldable pub subresource_of : Attributes → Option Str
unfolding elem is_pod_local_forward_host get_extra
subresource_of attrs =
    if elem attrs.action (
      capability_shell ∷ capability_exec ∷ capability_sftp ∷ capability_scp
      ∷ capability_remote_forward ∷ capability_agent_forward ∷ [])
    then some (codes "exec")
    else if attrs.action == capability_local_forward
    then (if is_pod_local_forward_host (get_extra attrs.extra (codes "destination_host"))
        then some (codes "portforward")
        else some (codes "exec"))
    else none

-- The reason of a denial.
unfoldable pub denial_reason : ReviewStatus → Reason
denial_reason status =
    if is_empty status.reason
    then (if is_empty status.evaluation_error then rbac_denied else text status.evaluation_error)
    else text status.reason

abbrev pub review : Request → Str → Review
review req subresource = record {
  user = req.user.name;
  groups = req.user.groups;
  namespace = resource_value req.attributes.resources (codes "namespaces");
  verb = codes "create";
  group = [];
  resource = codes "pods";
  subresource = subresource;
  name = resource_value req.attributes.resources (codes "pods");
}

unfoldable pub conclude : Result ReviewStatus → Answer
unfolding denial_reason
conclude (err e) = failure no_opinion empty e
conclude (ok status) =
    if status.allowed then answer allow empty else answer deny (denial_reason status)

module _ (client : Client) where
  unfoldable pub authorize : Authorizer
  authorize req =
      if not (resource_value req.attributes.resources (codes "targets") == codes "kube")
      then answer no_opinion empty
      else elim (subresource_of req.attributes) [
        | none ↦ answer no_opinion empty
        | some subresource ↦
            if is_empty (resource_value req.attributes.resources (codes "namespaces"))
              || is_empty (resource_value req.attributes.resources (codes "pods"))
            then failure deny target_incomplete internal
            else if is_empty req.user.name
            then answer deny user_required
            else conclude (client (review req subresource))
      ]

  -- What stands behind an allowed request: a Pod target with a namespace, a Pod and a named user, a
  -- capability that maps to a subresource, and the API server's consent that this user creates that
  -- subresource of that Pod.
  pub record Reviewed (req : Request) : Type 0 where
    kind : resource_value req.attributes.resources (codes "targets") ≡ codes "kube"
    subresource : Str
    mapped : subresource_of req.attributes ≡ some subresource
    namespaced : resource_value req.attributes.resources (codes "namespaces") ≢ []
    pod : resource_value req.attributes.resources (codes "pods") ≢ []
    user : req.user.name ≢ []
    status : ReviewStatus
    answered : client (review req subresource) ≡ ok status
    allows : status.allowed ≡ true

  pub Reviewed-allow : (req : Request) → Reviewed req → authorize req ≡ answer allow empty
  unfolding authorize conclude
  Reviewed-allow req r =
      ground
        (arith, ==_iff (resource_value req.attributes.resources (codes "targets")) (codes "kube"))

  -- What the authorizer allows, the API server has reviewed and allowed: a Pod target with a namespace
  -- and a Pod, a user with a name, and a capability that maps to the reviewed subresource.
  pub allow-Reviewed : (req : Request) → (authorize req).decision ≡ allow → Reviewed req
  unfolding authorize conclude
  allow-Reviewed req h = elim (Option-cases (subresource_of req.attributes)) [
    | inl unmapped ↦ absurd (ground arith)
    | inr (sub, e) ↦ elim (Result-cases (client (review req sub))) [
      | inl (status, answered) ↦ record {
        kind = ground (
          arith,
          ==_iff (resource_value req.attributes.resources (codes "targets")) (codes "kube"),
        );
        subresource = sub;
        mapped = e;
        namespaced = ground arith;
        pod = ground arith;
        user = ground arith;
        status = status;
        answered = answered;
        allows = ground arith;
      }
      | inr (x, failed) ↦ absurd (ground arith)
    ]
  ]
