-- ===== src/SshProxy.antt =====
-- pkg/sshproxy: parseTarget of target.go, and what Connector.Connect of connector.go tests before it loads
-- the credentials of the endpoint and dials it.
pub mod Bound
use kube_ssh.Base.{
  ℕ, Bool, true, false, not, ◌||◌, List, [], ◌∷◌, Option, none, some, Error, bad_request, conflict,
  internal, Result, ok, err, ◌>>=◌, if◌then◌else◌, ℤ, pos, eqb_ℤ,
}
use kube_ssh.Text.{Str, codes, ◌==◌, is_empty}
use kube_ssh.Text.Numbers.{parse_int64}
use kube_ssh.Dict.{get_or}
use kube_ssh.Target.{Target, option, kind_external_ssh}
use kube_ssh.Access.{Access, AccessEndpoint}
use kube_ssh.Access.Authorizer.{AccessGetter}

pub record BoundTarget : Type 0 where
  pub namespace : Str
  pub access : Str
  pub endpoint : Str
  pub access_uid : Str
  pub generation : ℤ

with_generation : (ℤ → BoundTarget) → Option ℤ → Result BoundTarget
with_generation parsed none = err bad_request
with_generation parsed (some generation) = ok (parsed generation)

parse_bound : Target → Result BoundTarget
unfolding ◌==◌ option get_or with_generation parse_int64
parse_bound tgt =
    let namespace = option tgt (codes "namespaces") in
    let access = option tgt (codes "accesses") in
    let endpoint = option tgt (codes "endpoints") in
    let uid = get_or (codes "ssh.accessUID") tgt.runtime [] in
    if not (tgt.kind == kind_external_ssh)
    then err bad_request
    else if is_empty namespace || is_empty access || is_empty endpoint || is_empty uid
    then err bad_request
    else with_generation
        (λ generation. record {
          namespace = namespace;
          access = access;
          endpoint = endpoint;
          access_uid = uid;
          generation = generation;
        })
        (parse_int64 (get_or (codes "ssh.accessGeneration") tgt.runtime []))

-- A nil target is `none`.
unfoldable pub parse_target : Option Target → Result BoundTarget
unfolding parse_bound
parse_target none = err bad_request
parse_target (some tgt) = parse_bound tgt

unfoldable pub find_endpoint : List AccessEndpoint → Str → Option AccessEndpoint
unfolding ◌==◌
find_endpoint [] name = none
find_endpoint (endpoint ∷ endpoints) name =
    if endpoint.name == name then some endpoint else find_endpoint endpoints name

existing : Option AccessEndpoint → Result AccessEndpoint
existing none = err internal
existing (some endpoint) = ok endpoint

unfoldable pub current_endpoint : BoundTarget → Access → Result AccessEndpoint
unfolding ◌==◌ find_endpoint existing
current_endpoint bound access =
    if not (access.uid == bound.access_uid) || not (eqb_ℤ (pos access.generation) bound.generation)
    then err conflict
    else if not (access.spec.type == codes "External")
    then err internal
    else existing (find_endpoint access.spec.endpoints bound.endpoint)

abbrev pub with_access : BoundTarget → Access → Result (Access × AccessEndpoint)
with_access bound access = current_endpoint bound access >>= λ endpoint. ok (access, endpoint)

-- The endpoint that Connect goes on with, with its Access. Get of the source is a parameter.
unfoldable pub bound_endpoint : AccessGetter → Option Target → Result (Access × AccessEndpoint)
unfolding parse_target
bound_endpoint get tgt =
    parse_target tgt >>= λ bound. get bound.namespace bound.access >>= with_access bound
