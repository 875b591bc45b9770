-- ===== src/Samples.antt =====
-- Sample data, and the theorems at concrete inputs.
use kube_ssh.Base.{
  ℕ, Bool, true, false, List, [], ◌∷◌, Option, none, some, Result, ok, err, internal,
  access_not_found, pos, if◌then◌else◌,
}
use kube_ssh.Text.{Str, codes, ◌==◌}
use kube_ssh.Dict.{Dict}
use kube_ssh.Target.{Target, ResolveInput, Hint}
use kube_ssh.PodTarget.{Pod}
use kube_ssh.Authn.{UserInfo}
use kube_ssh.Authz.{Attributes, AttributeResource, Request}
use kube_ssh.Access.{Access, AccessSpec, AccessCredential}
use kube_ssh.Access.Selector.{Selector, Candidate, Situation, Choice, Lease}
pub mod Policy
pub mod Targets
pub mod Logins
pub mod Selection
pub mod Transfers
pub mod Sessions
pub mod Gateways

abbrev pub alice : UserInfo
alice = record {
  id = [];
  name = codes "alice";
  email = [];
  email_verified = false;
  groups = [];
  extra = [];
}

abbrev pub plain_request : Request
plain_request = record {
  user = alice;
  auth_method = codes "password";
  auth_extra = [];
  attributes = record {
    action = codes "shell";
    resources =
        record { resource = codes "targets"; name = codes "kube" }
        ∷ record { resource = codes "namespaces"; name = codes "dev" }
        ∷ record { resource = codes "pods"; name = codes "web" }
        ∷ [];
    path = [];
    extra = [];
  };
}

abbrev pub access_extra : Dict (List Str)
access_extra =
    (codes "kube-ssh/access.namespace", codes "dev" ∷ [])
    ∷ (codes "kube-ssh/access.name", codes "app" ∷ [])
    ∷ (codes "kube-ssh/access.credential.username", codes "alice" ∷ [])
    ∷ []

abbrev pub access_request : Request
access_request = record plain_request { auth_extra = access_extra }

abbrev pub credential_of_alice : AccessCredential
credential_of_alice = record {
  username = codes "alice";
  uid = codes "1";
  groups = [];
  extra = [];
  passwords = codes "secret" ∷ [];
  passwords_from = [];
  public_keys = codes "key" ∷ [];
  public_keys_from = [];
  containers = [];
  capabilities = record {
    allowed = codes "shell" ∷ [];
    local_forward = none;
    remote_forward = none;
  };
}

abbrev pub app : Access
app = record {
  namespace = codes "dev";
  name = codes "app";
  uid = codes "u";
  generation = 1;
  creation = 0;
  spec = record {
    gateway_class_name = none;
    type = [];
    selector = [];
    endpoints = [];
    strategy = none;
    session = none;
    containers = [];
    credentials = credential_of_alice ∷ [];
  };
}

-- A store with the one Access dev/app.
abbrev pub one_access : Str → Str → Result Access
one_access namespace name =
    if namespace == codes "dev"
    then (if name == codes "app" then ok app else err access_not_found)
    else err access_not_found

abbrev pub web : Pod
web = record {
  namespace = codes "dev";
  name = codes "web";
  uid = codes "p1";
  annotations = [];
  labels = [];
  creation = 0;
  deletion = none;
  containers = codes "main" ∷ [];
  node_name = codes "n";
  phase = codes "Running";
  conditions = [];
  host_ip = [];
}

abbrev pub input_of : Str → ResolveInput
input_of user = record {
  ssh_user = user;
  user_name = codes "alice";
  auth_extra = [];
  source_ip = [];
  hints = [];
}

abbrev pub two : List Candidate
two =
    record { key = codes "dev/a"; weight = 1; created_at = 5 }
    ∷ record { key = codes "dev/b"; weight = 2; created_at = 7 }
    ∷ []
