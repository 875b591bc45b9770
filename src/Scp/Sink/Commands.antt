-- ===== src/Scp/Sink/Commands.antt =====
-- Every command of the sink keeps an invariant of the connection and of the calls.
use kube_ssh.Base.{
  ℕ, ◌≡◌, refl, ◌≢◌, ◌||◌, List, [], ◌∷◌, Option, none, some, Error, Result, ok, err, arith, All,
  nat_eq, Bool-cases, inl, inr, internal, subst, ok_inj,
}
use kube_ssh.Text.{Str}
use kube_ssh.Scp.Wire.{Call, mkdir_all, lift}
use kube_ssh.Scp.Header.{
  parse_scp_file, parse_scp_entry, parse_scp_times, clean_scp_name, is_rejected,
}
use kube_ssh.Scp.Sink.Kept.{
  Invariant, Keeps, Any, then-Keeps, bind-Keeps, ack-Keeps, refuse-Keeps, reported-Keeps, act-Keeps,
  set_times-Keeps, receive-Keeps,
}
use kube_ssh.Scp.Sink.{
  Sink, Progress, more, finished, last_dir, is_nested, destination, pop_dir, handle_line,
  acknowledged, handle_times, enter, handle_directory, handle_file,
}

-- The directories of the stack are allowed, and there is one.
abbrev pub Standing : (Str → Type 0) → Sink → Type 0
Standing Allowed s = All Allowed s.dirs × (s.dirs ≢ [])

abbrev pub Proceeds : (Str → Type 0) → Progress → Type 0
Proceeds Allowed (more s) = Standing Allowed s
Proceeds Allowed finished = Unit

clean-same : (given name : Str) → clean_scp_name given ≡ ok name → clean_scp_name name ≡ ok name
unfolding clean_scp_name
clean-same given name h = elim (Bool-cases (is_rejected given)) [
  | inl refused ↦ absurd (ground arith)
  | inr fine ↦ let same : given ≡ name = ok_inj (rw fine at h) in rw (← same, fine) refl
]

module _ (outcome : List Call → Call → Option Error) (message : Error → Str)
    (v : Invariant outcome) where
  acknowledged-Keeps :
      (s : Sink)
      → Standing v.Allowed s
      → Keeps v.I (Proceeds v.Allowed) (acknowledged outcome message s)
  unfolding acknowledged
  acknowledged-Keeps s h =
      (then-Keeps outcome message v) (Proceeds v.Allowed) _ _ ((ack-Keeps outcome message v) none)
        (λ w i. (i, h))

  destination-Allowed :
      (s : Sink) (dir name : Str)
      → v.Allowed dir
      → clean_scp_name name ≡ ok name
      → v.Allowed (destination s dir name)
  unfolding destination
  destination-Allowed s dir name a n = elim (Bool-cases (s.target_is_dir || is_nested s.dirs)) [
    | inl below ↦ rw below (v.join-Allowed dir name a n)
    | inr itself ↦ rw itself a
  ]

  pop-Standing :
      (s : Sink) → Standing v.Allowed s → Standing v.Allowed (record s { dirs = pop_dir s.dirs })
  unfolding pop_dir
  pop-Standing s h = popped s.dirs h
    where
      popped :
          (dirs : List Str)
          → All v.Allowed dirs × (dirs ≢ [])
          → All v.Allowed (pop_dir dirs) × (pop_dir dirs ≢ [])
      popped [] h = h
      popped (dir ∷ []) h = h
      popped (dir ∷ parent ∷ rest) h = (h.0.1, λ e. cc)

  last_dir-Allowed :
      (dirs : List Str) → All v.Allowed dirs → (dir : Str) → last_dir dirs ≡ ok dir → v.Allowed dir
  unfolding last_dir
  last_dir-Allowed [] h dir e = cc
  last_dir-Allowed (top ∷ rest) h dir e = let same : top ≡ dir = cc in subst v.Allowed same h.0

  lift-Keeps :
      {A : Type 0} (Q : A → Type 0) (result : Result A)
      → ((a : A) → result ≡ ok a → Q a)
      → Keeps v.I Q (lift result)
  lift-Keeps Q (err error) h w i = i
  lift-Keeps Q (ok a) h w i = (i, h a refl)

  times-Keeps :
      (s : Sink) (line : Str)
      → Standing v.Allowed s
      → Keeps v.I (Proceeds v.Allowed) (handle_times outcome message s line)
  unfolding handle_times
  times-Keeps s line h =
      (bind-Keeps outcome message v) Any (Proceeds v.Allowed) _ _
        ((reported-Keeps outcome message v) Any (parse_scp_times line) (λ _ _. tt))
        (λ times _. acknowledged-Keeps (record s { pending_times = some times }) h)

  enter-Keeps :
      (s : Sink) (dir : Str) (mode : ℕ)
      → Standing v.Allowed s
      → v.Allowed dir
      → Keeps v.I (Proceeds v.Allowed) (enter outcome message s dir mode)
  unfolding enter
  enter-Keeps s dir mode h a =
      (then-Keeps outcome message v) (Proceeds v.Allowed) _ _
        ((then-Keeps outcome message v) Any _ _
          ((act-Keeps outcome message v) (mkdir_all dir mode) a)
          ((set_times-Keeps outcome message v) dir s.pending_times a))
        (acknowledged-Keeps (record s { dirs = dir ∷ s.dirs; pending_times = none })
          ((a, h.0), λ e. cc))

  directory-Keeps :
      (s : Sink) (line : Str)
      → Standing v.Allowed s
      → Keeps v.I (Proceeds v.Allowed) (handle_directory outcome message s line)
  unfolding handle_directory
  directory-Keeps s line h =
      (bind-Keeps outcome message v) Any (Proceeds v.Allowed) _ _
        ((reported-Keeps outcome message v) Any (parse_scp_entry line) (λ _ _. tt))
        (λ (mode, given) _.
          (bind-Keeps outcome message v) (λ name. clean_scp_name name ≡ ok name)
            (Proceeds v.Allowed) _ _
            ((reported-Keeps outcome message v) _ (clean_scp_name given) (clean-same given))
            (λ name clean.
              (bind-Keeps outcome message v) v.Allowed (Proceeds v.Allowed) _ _
                (lift-Keeps v.Allowed _ (last_dir-Allowed s.dirs h.0))
                (λ dir a. enter-Keeps s _ mode h (destination-Allowed s dir name a clean))))

  file-Keeps :
      (s : Sink) (line : Str)
      → Standing v.Allowed s
      → Keeps v.I (Proceeds v.Allowed) (handle_file outcome message s line)
  unfolding handle_file
  file-Keeps s line h =
      (bind-Keeps outcome message v) Any (Proceeds v.Allowed) _ _
        ((reported-Keeps outcome message v) Any (parse_scp_file line) (λ _ _. tt))
        (λ (mode, size, given) _.
          (bind-Keeps outcome message v) (λ name. clean_scp_name name ≡ ok name)
            (Proceeds v.Allowed) _ _
            ((reported-Keeps outcome message v) _ (clean_scp_name given) (clean-same given))
            (λ name clean.
              (bind-Keeps outcome message v) v.Allowed (Proceeds v.Allowed) _ _
                (lift-Keeps v.Allowed _ (last_dir-Allowed s.dirs h.0))
                (λ dir a.
                  (then-Keeps outcome message v) (Proceeds v.Allowed) _ _
                    ((receive-Keeps outcome message v) _ mode size s.pending_times
                      (destination-Allowed s dir name a clean))
                    (λ w i. (i, h)))))

  pub handle_line-Keeps :
      (s : Sink) (line : Str)
      → Standing v.Allowed s
      → Keeps v.I (Proceeds v.Allowed) (handle_line outcome message s line)
  unfolding handle_line
  handle_line-Keeps s [] h w i = (i, h)
  handle_line-Keeps s (c ∷ rest) h w i = elim (Bool-cases (nat_eq c b'T')) [
    | inl t ↦ rw t (times-Keeps s (c ∷ rest) h w i)
    | inr not_t ↦ elim (Bool-cases (nat_eq c b'D')) [
      | inl d ↦ rw (not_t, d) (directory-Keeps s (c ∷ rest) h w i)
      | inr not_d ↦ elim (Bool-cases (nat_eq c b'E')) [
        | inl e ↦
            rw (not_t, not_d, e)
              (acknowledged-Keeps (record s { dirs = pop_dir s.dirs }) (pop-Standing s h) w i)
        | inr not_e ↦ elim (Bool-cases (nat_eq c b'C')) [
          | inl f ↦ rw (not_t, not_d, not_e, f) (file-Keeps s (c ∷ rest) h w i)
          | inr not_f ↦
              rw (not_t, not_d, not_e, not_f)
                ((refuse-Keeps outcome message v) (Proceeds v.Allowed) internal w i)
        ]
      ]
    ]
  ]
