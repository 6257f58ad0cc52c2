-- ===== src/Hosts/File.antt =====
-- hosts.go: `writeHosts` and `writeFileAtomic`, over the operations on files that they call.
pub mod Atomic
use argonaut.Config.Check.{EndpointError}
use argonaut.Config.Schema.{Endpoint}
use argonaut.Hosts.{merge_hosts}
use argonaut.Prelude.{ℕ, List, [], Option, none, some, Result, ok, err, Bytes}

-- `os.ReadFile` fails as `os.IsNotExist` says, or otherwise.
pub data ReadError : Type 0 where
  not_exist : ReadError
  read_error : Bytes → ReadError

-- The calls of the operating system, with the text of the error where there is one. A file is
-- named by its path; `create_temp` makes a new one beside the path that it is given, and `open_dir`
-- opens the directory of it.
pub record FileOps (S : Type 0) : Type 0 where
  pub read_file : Bytes → S → Result ReadError Bytes × S
  pub create_temp : Bytes → S → Result Bytes Bytes × S
  pub write : Bytes → Bytes → S → Option Bytes × S
  pub chmod : Bytes → ℕ → S → Option Bytes × S
  pub sync : Bytes → S → Option Bytes × S
  pub close : Bytes → S → Option Bytes × S
  pub rename : Bytes → Bytes → S → Option Bytes × S
  pub remove : Bytes → S → Option Bytes × S
  pub open_dir : Bytes → S → Result Bytes Bytes × S

pub data HostsError : Type 0 where
  read_failed write_failed : Bytes → HostsError
  merge_failed : EndpointError → HostsError

module _ {S : Type 0} (ops : FileOps S) where
  -- `if err != nil { file.Close(); return err }`
  abbrev pub or_close : Bytes → Option Bytes × S → (S → Option Bytes × S) → Option Bytes × S
  or_close name (some e, s) next = (some e, (ops.close name s).1)
  or_close name (none, s) next = next s

  -- `if err != nil { return err }`
  abbrev pub or_return : Option Bytes × S → (S → Option Bytes × S) → Option Bytes × S
  or_return (some e, s) next = (some e, s)
  or_return (none, s) next = next s

  -- what follows the call of `os.Open`, with the deferred `file.Close()`
  sync_opened : Result Bytes Bytes × S → Option Bytes × S
  sync_opened (err e, s) = (some e, s)
  sync_opened (ok dir, s) = let (error, s') = ops.sync dir s in (error, (ops.close dir s').1)

  unfoldable pub sync_dir : Bytes → S → Option Bytes × S
  unfolding sync_opened
  sync_dir path s = sync_opened (ops.open_dir path s)

  -- from `file.Write` to `file.Close`
  unfoldable pub fill_temp : Bytes → Bytes → ℕ → S → Option Bytes × S
  fill_temp name content perm s = or_close name (ops.write name content s) (λ s1.
      or_close name (ops.chmod name perm s1)
        (λ s2. or_close name (ops.sync name s2) (λ s3. ops.close name s3)))

  -- from `file.Write` to the end
  unfoldable pub replace_file : Bytes → Bytes → Bytes → ℕ → S → Option Bytes × S
  replace_file path name content perm s =
      or_return (fill_temp name content perm s)
        (λ s1. or_return (ops.rename name path s1) (λ s2. (none, (sync_dir path s2).1)))

  -- what follows the call of `os.CreateTemp`; the deferred `os.Remove(tmp)` runs on every path
  write_temp : Bytes → Bytes → ℕ → Result Bytes Bytes × S → Option Bytes × S
  write_temp path content perm (err e, s) = (some e, s)
  write_temp path content perm (ok name, s) =
      let (error, s') = replace_file path name content perm s in (error, (ops.remove name s').1)

  unfoldable pub write_file_atomic : Bytes → Bytes → ℕ → S → Option Bytes × S
  unfolding write_temp
  write_file_atomic path content perm s = write_temp path content perm (ops.create_temp path s)

  written : Option Bytes × S → Option HostsError × S
  written (none, s) = (none, s)
  written (some e, s) = (some (write_failed e), s)

  put : Bytes → Result EndpointError Bytes → S → Option HostsError × S
  unfolding written
  put path (err e) s = (some (merge_failed e), s)
  put path (ok content) s = written (write_file_atomic path content 0o644 s)

  -- what follows the call of `os.ReadFile`; a file that is not there is read as an empty one
  merge_into : Bytes → List Endpoint → Result ReadError Bytes × S → Option HostsError × S
  unfolding put
  merge_into path eps (ok existing, s) = put path (merge_hosts existing eps) s
  merge_into path eps (err not_exist, s) = put path (merge_hosts [] eps) s
  merge_into path eps (err (read_error text), s) = (some (read_failed text), s)

  unfoldable pub write_hosts : Bytes → List Endpoint → S → Option HostsError × S
  unfolding merge_into
  write_hosts path eps s = merge_into path eps (ops.read_file path s)
