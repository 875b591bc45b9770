-- ===== src/PodSsh/Forwards.antt =====
-- The remote forwards of one SSH connection: pkg/podssh/client_state.go, and the requests and the serving
-- loop of pkg/podssh/remotetcpip.go. A method that takes the lock is one step, and so are a request and
-- the end of a serving loop.
pub mod Counts
pub mod Released
use kube_ssh.Base.{
  ℕ, zero, suc, Bool, true, false, List, [], ◌∷◌, ◌++◌, Option, none, some, Result, ok, err, map,
  if◌then◌else◌,
}
use kube_ssh.Text.{Str, join_host_port}
use kube_ssh.Text.Numbers.{format_uint}
use kube_ssh.Dict.{Dict, lookup, insert, delete}

-- A forward of the backend: which object it is, and the port that it has.
pub record Forward : Type 0 where
  pub identity : ℕ
  pub actual_port : ℕ

-- After Close the map is nil, which reads as an empty one.
pub record ClientState : Type 0 where
  pub closed : Bool
  pub remote_forwards : Dict Forward

abbrev pub new_client_state : ClientState
new_client_state = record { closed = false; remote_forwards = [] }

add_where : Str → Forward → ClientState → Option Forward → Bool × ClientState
unfolding insert
add_where bind forward s none =
    (true, record s { remote_forwards = insert bind forward s.remote_forwards })
add_where bind forward s (some other) = (false, s)

unfoldable pub add_remote_forward : Str → Forward → ClientState → Bool × ClientState
unfolding lookup add_where
add_remote_forward bind forward s =
    if s.closed then (false, s) else add_where bind forward s (lookup bind s.remote_forwards)

remove_found : Str → ClientState → Option Forward → Option Forward × ClientState
unfolding delete
remove_found bind s none = (none, s)
remove_found bind s (some forward) =
    (some forward, record s { remote_forwards = delete bind s.remote_forwards })

unfoldable pub remove_remote_forward : Str → ClientState → Option Forward × ClientState
unfolding lookup remove_found
remove_remote_forward bind s = remove_found bind s (lookup bind s.remote_forwards)

abbrev pub values : Dict Forward → List Forward
values [] = []
values ((bind, forward) ∷ rest) = forward ∷ values rest

-- The forwards that Close closes, in some order of the map.
unfoldable pub close : ClientState → List Forward × ClientState
close s =
    if s.closed
    then ([], s)
    else (values s.remote_forwards, record { closed = true; remote_forwards = [] })

unfoldable pub new_remote_forward_bind : Str → ℕ → Str
unfolding join_host_port format_uint
new_remote_forward_bind host port = join_host_port host (format_uint 10 port)

pub record Serving : Type 0 where
  pub bind : Str
  pub forward : Forward

-- The connection with its serving loops, and what it has done: the forwards that it closed or canceled,
-- and how many operations began and finished.
pub record Connection : Type 0 where
  pub state : ClientState
  pub serving : List Serving
  pub released : List Forward
  pub begun : ℕ
  pub finished : ℕ

abbrev pub new_connection : Connection
new_connection = record {
  state = new_client_state;
  serving = [];
  released = [];
  begun = 0;
  finished = 0;
}

-- The reply to a request: whether it succeeded, and the port.
abbrev pub Reply : Type 0
Reply = Bool × Option ℕ

refused : Connection → Reply × Connection
refused c = ((false, none), c)

-- The forward is there: it is kept and served, or closed where its address is taken.
accept_forward : Str → Forward → Connection → Bool × ClientState → Reply × Connection
accept_forward bind forward c (true, state) = (
  (true, some forward.actual_port),
  record c { state = state; serving = record { bind = bind; forward = forward } ∷ c.serving },
)
accept_forward bind forward c (false, state) =
    refused (record c { released = forward ∷ c.released; finished = suc c.finished })

forwarded : Str → Result Forward → Connection → Reply × Connection
unfolding refused accept_forward add_remote_forward new_remote_forward_bind
forwarded host (err error) c = refused (record c { finished = suc c.finished })
forwarded host (ok forward) c =
    let bind = new_remote_forward_bind host forward.actual_port in
    accept_forward bind forward c (add_remote_forward bind forward c.state)

allowed : Str → Result {0} Unit → Result Forward → Connection → Reply × Connection
unfolding refused forwarded
allowed host (err error) remote c = refused c
allowed host (ok _) remote c = forwarded host remote (record c { begun = suc c.begun })

-- The payload is `none` where it does not parse; p.begin, which finishes an operation that it refuses,
-- and backend.RemoteForward give the results.
unfoldable pub handle_tcpip_forward :
    Option (Str × ℕ) → Result {0} Unit → Result Forward → Connection → Reply × Connection
unfolding refused allowed
handle_tcpip_forward none begin remote c = refused c
handle_tcpip_forward (some (host, port)) begin remote c = allowed host begin remote c

-- forward.Cancel() or forward.Close(): one forward is given back, and closed where canceling fails.
released_one : Option Forward × ClientState → Connection → Connection
released_one (none, state) c = record c { state = state }
released_one (some forward, state) c = record c { state = state; released = forward ∷ c.released }

unfoldable pub handle_cancel_tcpip_forward : Option (Str × ℕ) → Connection → Bool × Connection
unfolding released_one remove_remote_forward new_remote_forward_bind
handle_cancel_tcpip_forward none c = (false, c)
handle_cancel_tcpip_forward (some (host, port)) c =
    (true, released_one (remove_remote_forward (new_remote_forward_bind host port) c.state) c)

-- What serveRemoteForward does when its loop ends, with the loops that go on.
unfoldable pub end_serving : Serving → List Serving → Connection → Connection
unfolding released_one remove_remote_forward
end_serving ended others c =
    released_one (remove_remote_forward ended.bind c.state)
      (record c { serving = others; finished = suc c.finished })

closed_all : List Forward × ClientState → Connection → Connection
closed_all (forwards, state) c = record c { state = state; released = forwards ++ c.released }

-- Protocol.Close
unfoldable pub close_protocol : Connection → Connection
unfolding closed_all close
close_protocol c = closed_all (close c.state) c
