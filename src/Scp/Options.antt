-- ===== src/Scp/Options.antt =====
-- The options of the scp command: parseSCPOptions of pkg/podssh/backend/helper/scp.go.
use kube_ssh.Base.{
  ◌||◌, ℕ, Bool, true, false, not, ◌&&◌, List, [], ◌∷◌, Result, ok, err, internal, ◌>>=◌, nat_eq,
  if◌then◌else◌, drop,
}
use kube_ssh.Text.{Str, codes, ◌==◌, has_prefix, is_empty}

pub record ScpOptions : Type 0 where
  pub source : Bool
  pub sink : Bool
  pub recursive : Bool
  pub preserve : Bool
  pub target : Str

abbrev pub no_options : ScpOptions
no_options = record {
  source = false;
  sink = false;
  recursive = false;
  preserve = false;
  target = [];
}

-- One letter behind a dash.
unfoldable pub set_flag : ℕ → ScpOptions → Result ScpOptions
set_flag flag opts =
    if nat_eq flag b't'
    then ok (record opts { sink = true })
    else if nat_eq flag b'f'
    then ok (record opts { source = true })
    else if nat_eq flag b'r'
    then ok (record opts { recursive = true })
    else if nat_eq flag b'p'
    then ok (record opts { preserve = true })
    else if nat_eq flag b'd' || nat_eq flag b'v'
    then ok opts
    else err internal

unfoldable pub set_flags : Str → ScpOptions → Result ScpOptions
unfolding set_flag
set_flags [] opts = ok opts
set_flags (flag ∷ flags) opts = set_flag flag opts >>= set_flags flags

-- The loop over the arguments.
unfoldable pub read_args : List Str → ScpOptions → Result ScpOptions
unfolding set_flags has_prefix ◌==◌
read_args [] opts = ok opts
read_args (arg ∷ args) opts =
    (if has_prefix arg (codes "-") && not (arg == codes "-")
      then set_flags (drop 1 arg) opts
      else ok (record opts { target = arg }))
    >>= read_args args

-- Go's == on bool
same : Bool → Bool → Bool
same true b = b
same false b = not b

unfoldable pub complete : ScpOptions → Result ScpOptions
unfolding same
complete opts =
    if is_empty opts.target
    then err internal
    else if same opts.sink opts.source
    then err internal
    else ok opts

unfoldable pub parse_scp_options : List Str → Result ScpOptions
unfolding read_args complete
parse_scp_options args = read_args args no_options >>= complete
