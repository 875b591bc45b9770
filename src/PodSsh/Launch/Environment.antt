-- ===== src/PodSsh/Launch/Environment.antt =====
-- Which variables the environment of a session has.
use kube_ssh.Base.{
  ◌≡◌, refl, ◌⊎◌, inl, inr, Bool, true, false, List, [], ◌∷◌, ◌++◌, Option, none, some, All, In,
  keep, Bool-cases, arith,
}
use kube_ssh.Text.{Str, codes, cut, is_empty}
use kube_ssh.PodSsh.Session.{ServerSession, Pty}
use kube_ssh.PodSsh.Launch.{
  ssh_auth_sock, equal_fold, keeps_key, filter_env, append_env_override, with_socket, with_term,
  session_env,
}

-- A variable that the client set, and may set, which is not SSH_AUTH_SOCK in any case; the socket of the
-- accepted agent forwarding; or the terminal type of the PTY.
abbrev pub Sourced : (Str → Bool) → ServerSession → Str → Type 0
Sourced env_allowed s item =
    (In item s.env
      × (key : Str) × (value : Str) × (cut b'=' item ≡ some (key, value))
      × (equal_fold key ssh_auth_sock ≡ false)
      × (env_allowed key ≡ true))
    ⊎ ((socket : Str) × (s.agent_forward ≡ some socket) × (item ≡ ssh_auth_sock ++ (b'=' ∷ socket)))
    ⊎ ((pty : Pty) × (s.pty ≡ some pty) × (item ≡ codes "TERM=" ++ pty.term))

module _ {A : Type 0} where
  keep-All :
      (P : A → Type 0) (test : A → Bool) (xs : List A)
      → ((x : A) → In x xs → test x ≡ true → P x)
      → All P (keep test xs)
  keep-All P test [] h = tt
  keep-All P test (x ∷ xs) h = elim (Bool-cases (test x)) [
    | inl kept ↦ rw kept (h x (inl refl) kept, keep-All P test xs (λ y within. h y (inr within)))
    | inr left ↦ rw left (keep-All P test xs (λ y within. h y (inr within)))
  ]

  All-keep : (P : A → Type 0) (test : A → Bool) (xs : List A) → All P xs → All P (keep test xs)
  All-keep P test [] h = tt
  All-keep P test (x ∷ xs) h = elim (Bool-cases (test x)) [
    | inl kept ↦ rw kept (h.0, All-keep P test xs h.1)
    | inr left ↦ rw left (All-keep P test xs h.1)
  ]

  All-append : (P : A → Type 0) (xs : List A) (x : A) → All P xs → P x → All P (xs ++ (x ∷ []))
  All-append P [] x h k = (k, tt)
  All-append P (y ∷ xs) x h k = (h.0, All-append P xs x h.1 k)

module _ (env_allowed : Str → Bool) (s : ServerSession) where
  kept-Sourced :
      (item : Str) (parted : Option (Str × Str))
      → In item s.env
      → cut b'=' item ≡ parted
      → keeps_key env_allowed parted ≡ true
      → Sourced env_allowed s item
  unfolding keeps_key
  kept-Sourced item none given e h = absurd (cc)
  kept-Sourced item (some (key, value)) given e h =
      inl (given, key, value, e, ground arith, ground arith)

  filter-Sourced : All (Sourced env_allowed s) (filter_env env_allowed s.env)
  unfolding filter_env
  filter-Sourced =
      keep-All (Sourced env_allowed s) _ s.env
        (λ item given h. kept-Sourced item (cut b'=' item) given refl h)

  socket-Sourced :
      (forward : Option Str) (env : List Str)
      → s.agent_forward ≡ forward
      → All (Sourced env_allowed s) env
      → All (Sourced env_allowed s) (with_socket forward env)
  unfolding with_socket append_env_override
  socket-Sourced none env e h = h
  socket-Sourced (some socket) env e h = elim (Bool-cases (is_empty socket)) [
    | inl bare ↦ rw bare h
    | inr named ↦ rw named (
        All-append (Sourced env_allowed s) _ _ (All-keep (Sourced env_allowed s) _ env h)
          (inr (inl (socket, e, refl))))
  ]

  term-Sourced :
      (pty : Option Pty) (env : List Str)
      → s.pty ≡ pty
      → All (Sourced env_allowed s) env
      → All (Sourced env_allowed s) (with_term pty env)
  unfolding with_term
  term-Sourced none env e h = h
  term-Sourced (some pty) env e h = elim (Bool-cases (is_empty pty.term)) [
    | inl bare ↦ rw bare h
    | inr named ↦ rw named (All-append (Sourced env_allowed s) env _ h (inr (inr (pty, e, refl))))
  ]

  -- Each variable of a session's environment is one of those that the client set, unchanged, whose name it
  -- may set and is not SSH_AUTH_SOCK in any case; or SSH_AUTH_SOCK with the socket of the agent forwarding
  -- that was accepted; or TERM with the terminal type of the PTY.
  pub session_env-Sourced : All (Sourced env_allowed s) (session_env env_allowed s)
  unfolding session_env
  session_env-Sourced =
      term-Sourced s.pty _ refl
        (socket-Sourced s.agent_forward (filter_env env_allowed s.env) refl filter-Sourced)
