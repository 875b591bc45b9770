-- ===== src/Scp/Sink/Below.antt =====
-- Where the files are that the sink writes to.
use kube_ssh.Base.{◌≡◌, refl, ◌∙◌, ap, Bool, List, [], ◌∷◌, ◌++◌, Option, some, Error, Result, All}
use kube_ssh.Text.{Str}
use kube_ssh.Scp.Wire.{Call, Wire}
use kube_ssh.Scp.Paths.{location, is_rooted}
use kube_ssh.Scp.Location.{IsPlain, clean-IsPlain, location-filepath_join}
use kube_ssh.Scp.Sink.{run_scp_sink}
use kube_ssh.Scp.Sink.Kept.{path_of}
use kube_ssh.Scp.Sink.Inside.{Inside, here, below, run_scp_sink-Inside}

-- A path leads to the place of the root, or from there down by plain names.
abbrev pub Below : Str → Str → Type 0
Below root path =
    (names : List Str) × All IsPlain names
    × (location path ≡ (is_rooted root, names ++ (location root).1))

Inside-Below : (root path : Str) → Inside root path → Below root path
Inside-Below root path here = ([], tt, refl)
Inside-Below root path (below {dir} {name} inside clean) =
    let (names, plain, at) = Inside-Below root dir inside in
    (
      name ∷ names,
      (clean-IsPlain name clean, plain),
      location-filepath_join dir name clean
          ∙ ap (λ (place : Bool × List Str). (place.0, name ∷ place.1)) at,
    )

all-Below :
    (root : Str) (calls : List Call)
    → All (λ call. Inside root (path_of call)) calls
    → All (λ call. Below root (path_of call)) calls
all-Below root [] h = tt
all-Below root (call ∷ calls) h = (Inside-Below root (path_of call) h.0, all-Below root calls h.1)

module _ (outcome : List Call → Call → Option Error) (message : Error → Str) where
  -- From a connection on which no call was made, runSCPSink returns, whatever it reads and whatever the
  -- system answers, and every file that its calls name leads to the place of the target, or from there
  -- down by plain names: none is empty, "." or "..", or has a slash.
  pub run_scp_sink-Below :
      (is_dir : Str → Bool) (root : Str) (w : Wire)
      → w.calls ≡ []
      → (done : Result Unit × Wire) × (run_scp_sink outcome message is_dir root w ≡ some done)
        × All (λ call. Below root (path_of call)) done.1.calls
  run_scp_sink-Below is_dir root w fresh =
      let (done, ends, inside) = run_scp_sink-Inside outcome message root is_dir w fresh in
      (done, ends, all-Below root done.1.calls inside)
