-- ===== src/PodSsh/Forwards/Released.antt =====
-- Every forward that the backend gives is given back once.
use kube_ssh.Base.{
  ℕ, suc, ◌+◌, ◌≡◌, refl, ◌∙◌, ap, Bool, true, false, List, [], ◌∷◌, ◌++◌, Option, none, some,
  Result, ok, err, length, length-append, if◌then◌else◌, arith,
}
use kube_ssh.Text.{Str}
use kube_ssh.Dict.{lookup, delete}
use kube_ssh.PodSsh.Forwards.{
  Forward, Connection, Serving, new_connection, values, add_where, add_remote_forward, remove_found,
  remove_remote_forward, close, accept_forward, forwarded, allowed, refused, handle_tcpip_forward,
  released_one, handle_cancel_tcpip_forward, end_serving, closed_all, close_protocol,
  new_remote_forward_bind,
}
use kube_ssh.PodSsh.Forwards.Counts.{
  count, count-append, IsDistinct, insert-IsDistinct, delete-IsDistinct, count-insert, count-delete,
}

-- The forward that the backend is asked for and gives.
abbrev pub obtained : Option (Str × ℕ) → Result {0} Unit → Result Forward → List Forward
obtained (some request) (ok _) (ok forward) = forward ∷ []
obtained _ _ _ = []

-- A connection, and the forwards that the backend gave it.
pub data Run : Connection → List Forward → Type 0 where
  start : Run new_connection []
  requested :
      (c : Connection) (gave : List Forward) (payload : Option (Str × ℕ)) (begin : Result {0} Unit)
      (remote : Result Forward)
      → Run c gave
      → Run (handle_tcpip_forward payload begin remote c).1 (obtained payload begin remote ++ gave)
  canceled :
      (c : Connection) (gave : List Forward) (payload : Option (Str × ℕ))
      → Run c gave
      → Run (handle_cancel_tcpip_forward payload c).1 gave
  served :
      (c : Connection) (gave : List Forward) (before after : List Serving) (ended : Serving)
      → Run c gave
      → c.serving ≡ before ++ (ended ∷ after)
      → Run (end_serving ended (before ++ after) c) gave
  was_closed : (c : Connection) (gave : List Forward) → Run c gave → Run (close_protocol c) gave

-- Each forward that was given is in the map or released, as often as it was given; each operation that
-- began is finished or served; and a closed connection holds none.
pub record Kept (c : Connection) (gave : List Forward) : Type 0 where
  pub distinct : IsDistinct c.state.remote_forwards
  pub owned : (i : ℕ) → count i gave ≡ count i (values c.state.remote_forwards) + count i c.released
  pub finishes : c.begun ≡ c.finished + length c.serving
  pub emptied : c.state.closed ≡ true → c.state.remote_forwards ≡ []

start-Kept : Kept new_connection []
start-Kept = record { distinct = tt; owned = λ i. refl; finishes = refl; emptied = λ e. refl }

module _ (c : Connection) (gave : List Forward) (h : Kept c gave) where
  -- One forward more, with the operation that began for it.
  added-Kept :
      (bind : Str) (forward : Forward) (there : Option Forward)
      → lookup bind c.state.remote_forwards ≡ there
      → c.state.closed ≡ false
      → Kept
          (accept_forward bind forward
            (record c { begun = suc c.begun })
            (add_where bind forward c.state there)).1
          (forward ∷ gave)
  unfolding accept_forward add_where refused
  added-Kept bind forward none absent still_open = record {
    distinct = insert-IsDistinct bind forward c.state.remote_forwards h.distinct;
    owned = λ i.
        let before = h.owned i in
        omega (arith, before, count-insert i bind forward c.state.remote_forwards absent);
    finishes = let whole = h.finishes in omega (arith, whole);
    emptied = λ e. absurd (cc);
  }
  added-Kept bind forward (some other) present still_open = record {
    distinct = h.distinct;
    owned = λ i. let before = h.owned i in omega (arith, before);
    finishes = let whole = h.finishes in omega (arith, whole);
    emptied = h.emptied;
  }

  accepted-Kept :
      (bind : Str) (forward : Forward) (closed : Bool)
      → c.state.closed ≡ closed
      → Kept
          (accept_forward bind forward
            (record c { begun = suc c.begun })
            (if closed
              then (false, c.state)
              else add_where bind forward c.state (lookup bind c.state.remote_forwards))).1
          (forward ∷ gave)
  unfolding accept_forward refused
  accepted-Kept bind forward true closed = record {
    distinct = h.distinct;
    owned = λ i. let before = h.owned i in omega (arith, before);
    finishes = let whole = h.finishes in omega (arith, whole);
    emptied = h.emptied;
  }
  accepted-Kept bind forward false still_open =
      added-Kept bind forward (lookup bind c.state.remote_forwards) refl still_open

  requested-Kept :
      (payload : Option (Str × ℕ)) (begin : Result {0} Unit) (remote : Result Forward)
      → Kept (handle_tcpip_forward payload begin remote c).1 (obtained payload begin remote ++ gave)
  unfolding handle_tcpip_forward allowed forwarded refused add_remote_forward
  requested-Kept none begin remote = h
  requested-Kept (some (host, port)) (err error) remote = h
  requested-Kept (some (host, port)) (ok _) (err error) = record {
    distinct = h.distinct;
    owned = h.owned;
    finishes = let whole = h.finishes in omega (arith, whole);
    emptied = h.emptied;
  }
  requested-Kept (some (host, port)) (ok _) (ok forward) =
      accepted-Kept (new_remote_forward_bind host forward.actual_port) forward c.state.closed refl

  removed-Kept :
      (bind : Str) (there : Option Forward)
      → lookup bind c.state.remote_forwards ≡ there
      → Kept (released_one (remove_found bind c.state there) c) gave
  unfolding released_one remove_found delete
  removed-Kept bind none absent = h
  removed-Kept bind (some forward) present = record {
    distinct = delete-IsDistinct bind c.state.remote_forwards h.distinct;
    owned = λ i.
        let before = h.owned i in
        omega
          (arith, before, count-delete i bind forward c.state.remote_forwards h.distinct present);
    finishes = h.finishes;
    emptied = λ e. let bare = h.emptied e in rw bare refl;
  }

  canceled-Kept : (payload : Option (Str × ℕ)) → Kept (handle_cancel_tcpip_forward payload c).1 gave
  unfolding handle_cancel_tcpip_forward remove_remote_forward
  canceled-Kept none = h
  canceled-Kept (some (host, port)) =
      removed-Kept (new_remote_forward_bind host port)
        (lookup (new_remote_forward_bind host port) c.state.remote_forwards) refl

  closed-Kept : Kept (close_protocol c) gave
  unfolding close_protocol close closed_all
  closed-Kept = by c.state.closed
    where
      by :
          (closed : Bool)
          → Kept
              (closed_all
                (if closed then ([], c.state) else (
                  values c.state.remote_forwards,
                  record { closed = true; remote_forwards = [] },
                ))
                c)
              gave
      by true = h
      by false = record {
        distinct = tt;
        owned = λ i.
            let before = h.owned i in
            omega (arith, before, count-append i (values c.state.remote_forwards) c.released);
        finishes = h.finishes;
        emptied = λ e. refl;
      }

  -- A loop fewer, and one operation finished.
  left-Kept :
      (before after : List Serving) (ended : Serving)
      → c.serving ≡ before ++ (ended ∷ after)
      → Kept (record c { serving = before ++ after; finished = suc c.finished }) gave
  left-Kept before after ended e = record {
    distinct = h.distinct;
    owned = h.owned;
    finishes =
        let whole = h.finishes in
        let size : length c.serving ≡ length before + suc (length after) =
          ap length e ∙ length-append before (ended ∷ after) in
        omega (arith, whole, size, length-append before after);
    emptied = h.emptied;
  }

served-Kept :
    (c : Connection) (gave : List Forward) (before after : List Serving) (ended : Serving)
    → c.serving ≡ before ++ (ended ∷ after)
    → Kept c gave
    → Kept (end_serving ended (before ++ after) c) gave
unfolding end_serving remove_remote_forward
served-Kept c gave before after ended e h =
    removed-Kept (record c { serving = before ++ after; finished = suc c.finished }) gave
      (left-Kept c gave h before after ended e) ended.bind
      (lookup ended.bind c.state.remote_forwards) refl

run-Kept : (c : Connection) (gave : List Forward) → Run c gave → Kept c gave
run-Kept c gave start = start-Kept
run-Kept c gave (requested c₀ gave₀ payload begin remote run) =
    requested-Kept c₀ gave₀ (run-Kept c₀ gave₀ run) payload begin remote
run-Kept c gave (canceled c₀ gave₀ payload run) =
    canceled-Kept c₀ gave₀ (run-Kept c₀ gave₀ run) payload
run-Kept c gave (served c₀ gave₀ before after ended run e) =
    served-Kept c₀ gave₀ before after ended e (run-Kept c₀ gave₀ run)
run-Kept c gave (was_closed c₀ gave₀ run) = closed-Kept c₀ gave₀ (run-Kept c₀ gave₀ run)

-- On a connection that is closed, after any order of requests, cancellations and ends of serving loops,
-- each forward was given back, by closing or canceling it, as often as the backend gave it; and as many
-- operations as began are finished or still have their serving loop.
pub run-released :
    (c : Connection) (gave : List Forward)
    → Run c gave
    → c.state.closed ≡ true
    → ((i : ℕ) → count i gave ≡ count i c.released) × (c.begun ≡ c.finished + length c.serving)
run-released c gave run closed =
    let h = run-Kept c gave run in
    let bare = h.emptied closed in
    (
      λ i.
          let all = h.owned i in
          let none_left : count i (values c.state.remote_forwards) ≡ 0 = rw bare refl in
          omega (arith, all, none_left),
      h.finishes,
    )
