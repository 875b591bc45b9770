-- ===== src/Scp/Source.antt =====
-- runSCPSource and the senders of pkg/podssh/backend/helper/scp.go: what an scp process does that sends
-- files.
pub mod Quiet
use kube_ssh.Base.{
  ℕ, ℤ, Bool, true, false, not, ◌||◌, List, [], ◌∷◌, ◌++◌, Option, none, some, Error, internal,
  Result, ok, err, if◌then◌else◌,
}
use kube_ssh.Text.{Str, codes, is_empty}
use kube_ssh.Scp.Wire.{
  Wire, Io, ◌>>=◌, ◌>>◌, pure, fail, write, read_scp_response, refuse, reported, checked,
}
use kube_ssh.Scp.Options.{ScpOptions}
use kube_ssh.Scp.Header.{file_header, directory_header, times_header}
use kube_ssh.Scp.Paths.{filepath_join, filepath_base}

-- os.FileInfo: the permission bits, the size and the seconds of the modification time.
pub record FileInfo : Type 0 where
  pub permissions : ℕ
  pub size : ℕ
  pub modified : ℤ

-- What os.Open and reading the file yield: the bytes before a read error.
pub record Contents : Type 0 where
  pub open_error : Option Error
  pub bytes : Str
  pub read_error : Option Error
  pub close_error : Option Error

-- What is found under a path. An entry of a directory may fail to tell its information, and the
-- directory to be listed.
mutual
  pub data Node : Type 0 where
    file : Bool → FileInfo → Contents → Node
    directory : FileInfo → Option Error → Entries → Node

  pub data Entries : Type 0 where
    no_entries : Entries
    entry : Str → Option Error → Node → Entries → Entries

unfoldable pub returned : Option Error → Io Unit
returned none = pure tt
returned (some error) = fail error

-- io.Copy to the connection: nothing is written for no bytes.
unfoldable pub write_bytes : Str → Io Unit
unfolding write
write_bytes s = if is_empty s then pure tt else write s

-- What is sent, then the response that the peer gives to it.
unfoldable pub exchange : Str → Io Unit
unfolding write read_scp_response ◌>>=◌
exchange s = write s >> read_scp_response

module _ (message : Error → Str) (preserve : Bool) where
  unfoldable pub send_scp_times : FileInfo → Io Unit
  unfolding exchange times_header
  send_scp_times info = exchange (times_header info.modified ++ (10 ∷ []))

  unfoldable pub times_first : FileInfo → Io Unit
  unfolding send_scp_times
  times_first info = if preserve then send_scp_times info else pure tt

  unfoldable pub send_scp_file : Str → FileInfo → Contents → Io Unit
  unfolding times_first exchange returned write_bytes checked ◌>>=◌ file_header filepath_base
  send_scp_file path info contents =
      times_first info
      >> exchange (file_header info.permissions info.size (filepath_base path) ++ (10 ∷ []))
      >> checked message contents.open_error
      >> write_bytes contents.bytes
      >> returned contents.read_error
      >> returned contents.close_error
      >> exchange (0 ∷ [])

  -- The first part of sendSCPDir, before the loop over the entries.
  open_directory : Str → FileInfo → Option Error → Io Unit
  unfolding times_first exchange checked ◌>>=◌ directory_header filepath_base
  open_directory path info read_error =
      times_first info
      >> exchange (directory_header info.permissions (filepath_base path) ++ (10 ∷ []))
      >> checked message read_error

  -- An entry that is no regular file and no directory is passed over.
  unfoldable mutual
    unfolding send_scp_file open_directory exchange checked ◌>>=◌ filepath_join

    pub send_scp_entry : Str → Node → Io Unit
    send_scp_entry path (file is_regular info contents) =
        if is_regular then send_scp_file path info contents else pure tt
    send_scp_entry path (directory info read_error listed) =
        open_directory path info read_error
        >> send_scp_entries path listed
        >> exchange (codes "E" ++ (10 ∷ []))

    pub send_scp_entries : Str → Entries → Io Unit
    send_scp_entries path no_entries = pure tt
    send_scp_entries path (entry name info_error node rest) =
        checked message info_error
        >> send_scp_entry (filepath_join path name) node
        >> send_scp_entries path rest

  -- What the target is decides: a directory wants the flag -r, and all else is sent as a file.
  send_target : Bool → Str → Node → Io Unit
  unfolding send_scp_file send_scp_entry refuse
  send_target recursive path (file is_regular info contents) = send_scp_file path info contents
  send_target recursive path (directory info read_error listed) =
      if recursive
      then send_scp_entry path (directory info read_error listed)
      else refuse message internal

-- `stat` is os.Stat with what there is to read.
unfoldable pub run_scp_source : (Error → Str) → (Str → Result Node) → ScpOptions → Io Unit
unfolding send_target reported read_scp_response ◌>>=◌
run_scp_source message stat opts =
    read_scp_response
    >> reported message (stat opts.target)
    >>= send_target message opts.preserve opts.recursive opts.target
