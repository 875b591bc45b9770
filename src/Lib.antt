-- ===== src/Lib.antt =====
-- kube-ssh is an SSH gateway to Pods and SSH endpoints of a Kubernetes cluster. This library models the
-- decisions that it takes between the login and the opened session, and the state that these leave.
--
-- The parts and how they interact. An SSH user logs in through a chain of authenticators (Authn), one of
-- which reads Access resources (Access.Credentials); the login leaves a context, the keys of Access. The
-- user name and the context become a target: by a chain of resolvers (Target), by the Pod locators
-- (PodTarget), or through an Access (Access.Locator, then Access.Resolver, which selects a Pod or an
-- endpoint by the strategy selector, Access.Selector). Each capability that the session then asks for is
-- authorized by a chain (Authz) that the gateway builds behind its policy guards (Gateway.Authorization);
-- the authorizer of an Access is Access.Authorizer. Gateway.Login is the configuration of the login,
-- Gateway.SessionPolicy the policy of a session, which Gateway.SessionConn enforces in time, and
-- Gateway.Operation what each operation of a connection asks the authorizers for. PodSsh.Session takes
-- the requests of a channel and PodSsh.Launch makes the backend's request of them; PodSsh.Forwards keeps
-- the remote forwards of a connection. A target of an external Access leads SshProxy to the endpoint
-- that it connects to. A session whose command is scp is served by Scp, the copy protocol
-- of the helper in the Pod. What happens is recorded by Audit. Patterns in all of them are those of
-- Wildcard.
--
-- Files and sources:
-- - Base, with Base.Tests, Base.Lists, Base.Errors and Base.Int: shared types, tests and lemmas. A Go
--   error is a value of Error, and a function that returns one a Result; a panic is an Error too.
-- - Text.Numbers: the numbers of strconv and fmt that the code reads and prints.
-- - Text, Dict: Go strings as lists of bytes with the functions of package strings that the code calls,
--   and Go maps as association lists; Dict.get_extra is GetExtra of pkg/accesspolicy/resolver.go.
-- - Wildcard: pkg/wildcard/pattern.go (Match, MatchAny); Wildcard.Relation says what a match is.
-- - Target: pkg/target/target.go (Chain.Resolve, HintResolver.Resolve, Target.Option, Target.String).
-- - PodTarget, PodTarget.Resolve: pkg/podtarget/target.go and resolver.go (New, Bind, Parse,
--   UsernameResolver, ResolveContainer, ContainerAllowed, BindingResolver).
-- - Authn, Authn.Chain, Authn.Static, Authn.Webhook: pkg/authn.
-- - Authz, Authz.Static, Authz.Limits, Authz.Sar, Authz.Webhook: pkg/authz.
-- - Gateway.Authorization: buildAuthorizer, withPolicyGuards and parseCapabilities of
--   pkg/gateway/dependencies.go.
-- - Access: the spec types of apis/ssh/v1/access_types.go and the helpers of pkg/accesspolicy on them.
-- - Access.Authorizer: pkg/accesspolicy/authorizer.go. Access.Locator, Access.Resolver:
--   pkg/accesspolicy/resolver.go, with NewTarget of pkg/sshproxy/target.go. Access.Credentials:
--   pkg/accesspolicy/policy_cache.go, context.go and authenticator.go. Access.Methods:
--   pkg/accesspolicy/authentication_methods.go.
-- - Access.Selector, Access.Selector.Targets: pkg/accesspolicy/strategy.go. The record Selector is the
--   struct with its maps; an operation takes it and returns it; the mutex makes each operation one step.
-- - SshProxy: pkg/sshproxy/target.go (parseTarget) and, of Connect in pkg/sshproxy/connector.go, the tests up
--   to the choice of the endpoint.
-- - Gateway.Login: pkg/gateway/authentication.go (enabledAuthenticationMethods, NoClientAuthCallback) with
--   buildAuthenticator and buildResolver of pkg/gateway/dependencies.go. Gateway.Operation:
--   pkg/gateway/protocol.go and operation.go.
-- - Gateway.SessionPolicy, Gateway.SessionConn: pkg/gateway/session_policy.go and session_policy_conn.go.
--   A step of the connection takes the time it occurs at; the timer is the time it fires at.
-- - PodSsh.Forwards: pkg/podssh/client_state.go and remotetcpip.go. PodSsh.Session:
--   pkg/podssh/session_handler.go; each request of the channel is one step. PodSsh.Launch:
--   pkg/podssh/session.go and operation.go (filterEnv, resolveSession, buildCommand, isSCPCommand).
-- - Scp.Options, Scp.Header, Scp.Sink, Scp.Source, Scp.Command: pkg/podssh/backend/helper/scp.go. Scp.Wire
--   is the connection: what is still to be read, what was written, and the system calls that were made.
-- - Audit.Event: pkg/audit/audit.go. Audit.Recorder: pkg/audit/async.go, with Record, the two parts of
--   Close and the worker as steps; Audit.Recorder.Drained has the worker's loop.
-- - The modules below these, and Text.Laws, Wildcard.Relation, Wildcard.Greedy and Wildcard.Correct, hold
--   the theorems and what they need; they add no code of the program but Access.Selector.Targets,
--   PodTarget.Resolve and the authenticators and authorizers named above.
-- - Samples: sample data, and each theorem at a concrete input.
--
-- Bounds. The loops are recursions on lists and strings. Numbers are natural numbers: counters and weights of
-- the selector stay below 2^63, and weights are at least 0. Where the code converts to a machine integer or
-- reads a number of so many bits, the test or the remainder is written out. Fuel occurs in three places. A
-- number is printed with one step more than its value, at least as many as it has digits
-- (Text.Numbers.digits). The sink's loop has one round more than there are
-- bytes to read, and each round reads at least one. The worker of the recorder has a number of steps that
-- a theorem bounds.
--
-- Not modelled: messages of errors and logs; the API server, informers, HTTP clients, the parsing of
-- public keys, label selectors, the clock, the random source and the file system, which are parameters;
-- goroutines beyond the order of the steps; the server loop, the proxying of streams, the backends other
-- than scp, the credentials and channels of the SSH proxy, the status controller, metrics, the sinks of
-- the audit and commands, which are mostly input and output. Strings are bytes; upper and lower case and
-- white space are those of ASCII.
pub mod Base
pub mod Text
pub mod Dict
pub mod Wildcard
pub mod Target
pub mod PodTarget
pub mod Authn
pub mod Authz
pub mod Scp
pub mod Audit
pub mod PodSsh
pub mod Gateway
pub mod Access
pub mod SshProxy
pub mod Samples
