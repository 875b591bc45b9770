-- ===== src/Scp/Sent.antt =====
-- What the sender of a regular file writes.
use kube_ssh.Base.{
  ℕ, suc, ◌≡◌, refl, Bool, true, false, List, [], ◌∷◌, ◌++◌, none, Error, Result, ok, append_assoc,
  if◌then◌else◌,
}
use kube_ssh.Text.{Str}
use kube_ssh.Scp.Wire.{
  Call, Wire, ◌>>=◌, continue, put, write, first_byte, taken, read_byte, checked, answered,
  read_scp_response,
}
use kube_ssh.Scp.Header.{times_header, file_header}
use kube_ssh.Scp.Paths.{filepath_base}
use kube_ssh.Scp.Source.{
  FileInfo, Contents, send_scp_file, send_scp_times, times_first, exchange, write_bytes, returned,
}

-- A connection with what matters here.
abbrev pub wire : Error → Error → Str → Str → ℕ → List Call → Wire
wire ending write_error incoming outgoing writes calls = record {
  incoming = incoming;
  ending = ending;
  outgoing = outgoing;
  writes = writes;
  write_error = write_error;
  calls = calls;
}

abbrev pub good : Str → Contents
good bytes = record { open_error = none; bytes = bytes; read_error = none; close_error = none }

abbrev pub file_text : Str → FileInfo → Str → Str
file_text path info bytes =
    file_header info.permissions info.size (filepath_base path) ++ (10 ∷ (bytes ++ (0 ∷ [])))

-- What the sender writes for such a file: with -p, a line of times comes first.
abbrev pub sent_text : Bool → Str → FileInfo → Str → Str
sent_text preserve path info bytes =
    if preserve
    then times_header info.modified ++ (10 ∷ file_text path info bytes)
    else file_text path info bytes

module _ (message : Error → Str) (ending write_error : Error) where
  abbrev pub on : Str → Str → ℕ → List Call → Wire
  on = wire ending write_error

  -- The sender at a peer that acknowledges.
  abbrev pub sender : Bool → Str → FileInfo → Str → ℕ → Result {0} Unit × Wire
  sender preserve path info bytes writes =
      send_scp_file message preserve path info (good bytes)
        (on (0 ∷ 0 ∷ 0 ∷ []) [] (suc (suc (suc (suc writes)))) [])

  pub sent-eq :
      (preserve : Bool) (path : Str) (info : FileInfo) (bytes : Str) (writes : ℕ)
      → ((sender preserve path info bytes writes).0 ≡ ok tt)
        × ((sender preserve path info bytes writes).1.outgoing ≡ sent_text preserve path info bytes)
  unfolding send_scp_file times_first send_scp_times exchange write_bytes returned checked ◌>>=◌
      continue write put read_scp_response answered read_byte first_byte taken
  sent-eq false path info [] writes = (refl, simp append_assoc)
  sent-eq false path info (c ∷ bytes) writes = (refl, simp append_assoc)
  sent-eq true path info [] writes = (refl, simp append_assoc)
  sent-eq true path info (c ∷ bytes) writes = (refl, simp append_assoc)
