-- ===== src/Authz.antt =====
-- pkg/authz/authz.go: the inputs and decisions of authorization, and the chain.
use kube_ssh.Base.{
  Bool, true, false, List, [], ◌∷◌, Option, none, some, Error, internal, Result, ok, err,
  if◌then◌else◌,
}
use kube_ssh.Text.{Str, codes, ◌==◌, elem}
use kube_ssh.Dict.{Dict}
use kube_ssh.Authn.{UserInfo}
pub mod Deciding
pub mod Static
pub mod Limits
pub mod Sar
pub mod Webhook

pub data Decision : Type 0 where
  no_opinion deny allow : Decision

-- The reasons are constant texts, a constructor for each, or a text that a server sent.
pub data Reason : Type 0 where
  empty : Reason
  capability_denied capability_not_allowed : Reason
  capability_exceeds_limits destination_exceeds_limits bind_exceeds_limits : Reason
  destination_not_allowed bind_not_allowed : Reason
  target_incomplete user_required rbac_denied : Reason
  access_gone credential_gone container_not_allowed : Reason
  text : Str → Reason

abbrev pub capability_shell : Str
capability_shell = codes "shell"

abbrev pub capability_exec : Str
capability_exec = codes "exec"

abbrev pub capability_scp : Str
capability_scp = codes "scp"

abbrev pub capability_sftp : Str
capability_sftp = codes "sftp"

abbrev pub capability_local_forward : Str
capability_local_forward = codes "local_forward"

abbrev pub capability_remote_forward : Str
capability_remote_forward = codes "remote_forward"

abbrev pub capability_agent_forward : Str
capability_agent_forward = codes "agent_forward"

abbrev pub capability_ssh_extension : Str
capability_ssh_extension = codes "ssh_extension"

abbrev pub capabilities : List Str
capabilities =
    capability_shell ∷ capability_exec ∷ capability_scp ∷ capability_sftp ∷ capability_local_forward
    ∷ capability_remote_forward ∷ capability_agent_forward ∷ capability_ssh_extension ∷ []

unfoldable pub parse_capability : Str → Result Str
unfolding elem
parse_capability value = if elem value capabilities then ok value else err internal

pub record AttributeResource : Type 0 where
  pub resource : Str
  pub name : Str

pub record Attributes : Type 0 where
  pub action : Str
  pub resources : List AttributeResource
  pub path : Str
  pub extra : Dict (List Str)

pub record Request : Type 0 where
  pub user : UserInfo
  pub auth_method : Str
  pub auth_extra : Dict (List Str)
  pub attributes : Attributes

-- The three results of Authorize.
pub record Answer : Type 0 where
  pub decision : Decision
  pub reason : Reason
  pub error : Option Error

-- The interface: what an authorizer answers to a request at the time of the call.
abbrev pub Authorizer : Type 0
Authorizer = Request → Answer

abbrev pub answer : Decision → Reason → Answer
answer d r = record { decision = d; reason = r; error = none }

abbrev pub failure : Decision → Reason → Error → Answer
failure d r e = record { decision = d; reason = r; error = some e }

-- One round of the loop of Chain.Authorize: whether it returns.
unfoldable pub returns : Answer → Bool
returns a = elim a.error [ some e ↦ true | none ↦ decisive a.decision ]
  where
    decisive : Decision → Bool
    decisive allow = true
    decisive deny = true
    decisive no_opinion = false

unfoldable pub chain : List Authorizer → Authorizer
unfolding returns
chain [] req = answer no_opinion empty
chain (authorizer ∷ rest) req = if returns (authorizer req) then authorizer req else chain rest req
