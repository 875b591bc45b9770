-- ===== src/Audit/Event.antt =====
-- The event schema of pkg/audit/audit.go, and what a recorder fills in: prepare of pkg/audit/async.go.
-- A pointer is an Option, so that cloneEvent, which copies what pointers share, is the identity here.
use kube_ssh.Base.{ℕ, nat_eq, Bool, List, Option, if◌then◌else◌, ℤ}
use kube_ssh.Text.{Str, codes, is_empty}
use kube_ssh.Dict.{Dict}

pub record Correlation : Type 0 where
  pub connection_id : Str
  pub operation_id : Str

pub record Connection : Type 0 where
  pub ssh_username : Str
  pub remote_address : Str
  pub local_address : Str
  pub client_version : Str
  pub server_version : Str

pub record Actor : Type 0 where
  pub id : Str
  pub name : Str
  pub email : Str
  pub email_verified : Bool
  pub groups : List Str
  pub authentication_method : Str
  pub public_key_fingerprint : Str

pub record AccessBinding : Type 0 where
  pub namespace : Str
  pub name : Str
  pub credential_username : Str
  pub credential_type : Str

pub record AuditTarget : Type 0 where
  pub kind : Str
  pub path : Str
  pub namespace : Str
  pub name : Str
  pub container : Str
  pub endpoint : Str

pub record AuditOperation : Type 0 where
  pub name : Str
  pub capability : Str
  pub command : Str

pub record Authorization : Type 0 where
  pub decision : Str
  pub reason : Str

pub record Outcome : Type 0 where
  pub result : Str
  pub reason : Str
  pub error : Str
  pub exit_code : Option ℤ
  pub duration_ms : ℤ

-- A time is its nanoseconds since the zero time, which IsZero tells.
pub record Event : Type 0 where
  pub schema_version : Str
  pub id : Str
  pub time : ℕ
  pub type_name : Str
  pub correlation : Correlation
  pub connection : Option Connection
  pub actor : Option Actor
  pub access : Option AccessBinding
  pub target : Option AuditTarget
  pub operation : Option AuditOperation
  pub authorization : Option Authorization
  pub outcome : Option Outcome
  pub fields : Dict Str

abbrev pub schema_version_1 : Str
schema_version_1 = codes "1.0"

or_else : Str → Str → Str
or_else default value = if is_empty value then default else value

-- The clock and NewID give `now` and `new_id`.
unfoldable pub prepare : ℕ → Str → Event → Event
unfolding or_else
prepare now new_id event = record event {
  schema_version = or_else schema_version_1 event.schema_version;
  id = or_else new_id event.id;
  time = if nat_eq event.time 0 then now else event.time;
}
