-- ===== src/Hosts/File/Atomic.antt =====
-- hosts.go: the hosts file behind `writeHosts`, whichever call fails.
use argonaut.Config.Check.{EndpointError}
use argonaut.Config.Schema.{Endpoint}
use argonaut.Hosts.File.{
  ReadError, not_exist, read_error, FileOps, HostsError, or_close, or_return, sync_opened, sync_dir,
  fill_temp, replace_file, write_temp, write_file_atomic, written, put, merge_into, write_hosts,
}
use argonaut.Hosts.{merge_hosts}
use argonaut.Prelude.{
  ℕ, ◌≡◌, ◌≢◌, ◌∙◌, refl, List, [], ◌++◌, Option, none, some, Result, ok, err, Bytes,
}

-- What the program relies on, for a view of the content of a path: the new file is another one and
-- empty, a write appends to its own file, a rename is done or not, and no other call changes what
-- a path holds, save that a removed file is gone.
pub record FileLaws {S : Type 0} (ops : FileOps S) (view : S → Bytes → Option Bytes) (path : Bytes)
    : Type 0 where
  pub read_keeps : (s : S) → view (ops.read_file path s).1 path ≡ view s path
  pub read_ok : (s : S) (c : Bytes) → (ops.read_file path s).0 ≡ ok c → view s path ≡ some c
  pub read_none : (s : S) → (ops.read_file path s).0 ≡ err not_exist → view s path ≡ none
  pub create_keeps : (s : S) → view (ops.create_temp path s).1 path ≡ view s path
  pub create_new :
      (s : S) (name : Bytes)
      → (ops.create_temp path s).0 ≡ ok name
      → (name ≢ path) × (view (ops.create_temp path s).1 name ≡ some [])
  pub write_keeps :
      (name content : Bytes) (s : S)
      → name ≢ path
      → view (ops.write name content s).1 path ≡ view s path
  pub write_appends :
      (name content before : Bytes) (s : S)
      → view s name ≡ some before
      → (ops.write name content s).0 ≡ none
      → view (ops.write name content s).1 name ≡ some (before ++ content)
  pub chmod_keeps :
      (name q : Bytes) (perm : ℕ) (s : S) → view (ops.chmod name perm s).1 q ≡ view s q
  pub sync_keeps : (name q : Bytes) (s : S) → view (ops.sync name s).1 q ≡ view s q
  pub close_keeps : (name q : Bytes) (s : S) → view (ops.close name s).1 q ≡ view s q
  pub open_keeps : (q : Bytes) (s : S) → view (ops.open_dir path s).1 q ≡ view s q
  pub rename_done :
      (name : Bytes) (s : S)
      → (ops.rename name path s).0 ≡ none
      → view (ops.rename name path s).1 path ≡ view s name
  pub rename_failed :
      (name e : Bytes) (s : S)
      → (ops.rename name path s).0 ≡ some e
      → view (ops.rename name path s).1 path ≡ view s path
  pub remove_keeps :
      (name : Bytes) (s : S) → name ≢ path → view (ops.remove name s).1 path ≡ view s path

-- The text of a file that may be missing.
abbrev pub text_of : Option Bytes → Bytes
text_of none = []
text_of (some c) = c

module _ {S : Type 0} (ops : FileOps S) (view : S → Bytes → Option Bytes) (path : Bytes)
    (laws : FileLaws ops view path) where
  -- The path holds what it held, and without an error another file holds the content.
  abbrev Kept : Option Bytes → Bytes → Bytes → Option Bytes × S → Type 0
  Kept old name content out =
      (view out.1 path ≡ old) × (out.0 ≡ none → view out.1 name ≡ some content)

  or_close-Kept :
      (old : Option Bytes) (name held content : Bytes) (out : Option Bytes × S)
      (next : S → Option Bytes × S)
      → Kept old name held out
      → ((s : S) → view s path ≡ old → view s name ≡ some held → Kept old name content (next s))
      → Kept old name content (or_close ops name out next)
  or_close-Kept old name held content (some e, s) next (kept, _) go =
      (laws.close_keeps name path s ∙ kept, λ h. cc)
  or_close-Kept old name held content (none, s) next (kept, holds) go = go s kept (holds refl)

  fill_temp-Kept :
      (old : Option Bytes) (name content : Bytes) (perm : ℕ) (s : S)
      → name ≢ path
      → view s path ≡ old
      → view s name ≡ some []
      → Kept old name content (fill_temp ops name content perm s)
  unfolding fill_temp
  fill_temp-Kept old name content perm s other kept fresh =
      or_close-Kept old name content content (ops.write name content s) _
        (
          laws.write_keeps name content s other ∙ kept,
          λ h. laws.write_appends name content [] s fresh h,
        )
        (λ s1 k1 h1.
          or_close-Kept old name content content (ops.chmod name perm s1) _
            (laws.chmod_keeps name path perm s1 ∙ k1, λ _. laws.chmod_keeps name name perm s1 ∙ h1)
            (λ s2 k2 h2.
              or_close-Kept old name content content (ops.sync name s2) _
                (laws.sync_keeps name path s2 ∙ k2, λ _. laws.sync_keeps name name s2 ∙ h2)
                (λ s3 k3 h3.
                  (laws.close_keeps name path s3 ∙ k3, λ _. laws.close_keeps name name s3 ∙ h3))))

  -- The path holds the new content, or with an error the old one.
  abbrev Swapped : Option Bytes → Bytes → Option Bytes × S → Type 0
  Swapped old content out =
      (out.0 ≡ none → view out.1 path ≡ some content)
      × ((e : Bytes) → out.0 ≡ some e → view out.1 path ≡ old)

  sync_opened-keeps :
      (out : Result Bytes Bytes × S) → view (sync_opened ops out).1 path ≡ view out.1 path
  unfolding sync_opened
  sync_opened-keeps (err e, s) = refl
  sync_opened-keeps (ok dir, s) =
      laws.close_keeps dir path (ops.sync dir s).1 ∙ laws.sync_keeps dir path s

  sync_dir-keeps : (s : S) → view (sync_dir ops path s).1 path ≡ view s path
  unfolding sync_dir
  sync_dir-keeps s = sync_opened-keeps (ops.open_dir path s) ∙ laws.open_keeps path s

  renamed :
      (old : Option Bytes) (content : Bytes) (out : Option Bytes × S)
      → (out.0 ≡ none → view out.1 path ≡ some content)
      → ((e : Bytes) → out.0 ≡ some e → view out.1 path ≡ old)
      → Swapped old content (or_return ops out (λ s. (none, (sync_dir ops path s).1)))
  renamed old content (some e, s) done failed = (done, failed)
  renamed old content (none, s) done failed = (λ _. sync_dir-keeps s ∙ done refl, λ e h. cc)

  filled :
      (old : Option Bytes) (name content : Bytes) (out : Option Bytes × S)
      → Kept old name content out
      → Swapped old content (
          or_return ops out
            (λ s. or_return ops (ops.rename name path s) (λ s'. (none, (sync_dir ops path s').1))))
  filled old name content (some e, s) (kept, _) = (λ h. cc, λ e h. kept)
  filled old name content (none, s) (kept, holds) =
      renamed old content (ops.rename name path s) (λ h. laws.rename_done name s h ∙ holds refl)
        (λ e h. laws.rename_failed name e s h ∙ kept)

  -- The deferred removal of the temporary file changes nothing of this.
  removed :
      (old : Option Bytes) (name content : Bytes) (out : Option Bytes × S)
      → name ≢ path
      → Swapped old content out
      → Swapped old content (out.0, (ops.remove name out.1).1)
  removed old name content out other (done, failed) = (
    λ h. laws.remove_keeps name out.1 other ∙ done h,
    λ e h. laws.remove_keeps name out.1 other ∙ failed e h,
  )

  write_temp-Swapped :
      (old : Option Bytes) (content : Bytes) (perm : ℕ) (out : Result Bytes Bytes × S)
      → view out.1 path ≡ old
      → ((name : Bytes) → out.0 ≡ ok name → (name ≢ path) × (view out.1 name ≡ some []))
      → Swapped old content (write_temp ops path content perm out)
  unfolding write_temp replace_file
  write_temp-Swapped old content perm (err e, s) kept new = (λ h. cc, λ e h. kept)
  write_temp-Swapped old content perm (ok name, s) kept new =
      let (other, fresh) = new name refl in
      removed old name content (replace_file ops path name content perm s) other (
        filled old name content (fill_temp ops name content perm s)
          (fill_temp-Kept old name content perm s other kept fresh))

  write_file_atomic-Swapped :
      (content : Bytes) (perm : ℕ) (s : S)
      → Swapped (view s path) content (write_file_atomic ops path content perm s)
  unfolding write_file_atomic
  write_file_atomic-Swapped content perm s =
      write_temp-Swapped (view s path) content perm (ops.create_temp path s) (laws.create_keeps s)
        (laws.create_new s)

  -- The path holds the merge of what it held, or with an error what it held.
  abbrev pub Merged : List Endpoint → Option Bytes → Option HostsError × S → Type 0
  Merged eps old out =
      (out.0 ≡ none
        → (content : Bytes) × (merge_hosts (text_of old) eps ≡ ok content)
          × (view out.1 path ≡ some content))
      × ((e : HostsError) → out.0 ≡ some e → view out.1 path ≡ old)

  written-Merged :
      (eps : List Endpoint) (old : Option Bytes) (content : Bytes) (out : Option Bytes × S)
      → merge_hosts (text_of old) eps ≡ ok content
      → Swapped old content out
      → Merged eps old (written ops out)
  unfolding written
  written-Merged eps old content (none, s) m (done, _) = (λ _. (content, m, done refl), λ e h. cc)
  written-Merged eps old content (some e, s) m (_, failed) = (λ h. cc, λ _ _. failed e refl)

  put-Merged :
      (eps : List Endpoint) (old : Option Bytes) (r : Result EndpointError Bytes) (s : S)
      → merge_hosts (text_of old) eps ≡ r
      → view s path ≡ old
      → Merged eps old (put ops path r s)
  unfolding put
  put-Merged eps old (err e) s m kept = (λ h. cc, λ _ _. kept)
  put-Merged eps old (ok content) s m kept =
      written-Merged eps old content (write_file_atomic ops path content 0o644 s) m
        (rw kept at (write_file_atomic-Swapped content 0o644 s))

  merge_into-Merged :
      (eps : List Endpoint) (old : Option Bytes) (out : Result ReadError Bytes × S)
      → view out.1 path ≡ old
      → ((c : Bytes) → out.0 ≡ ok c → old ≡ some c)
      → (out.0 ≡ err not_exist → old ≡ none)
      → Merged eps old (merge_into ops path eps out)
  unfolding merge_into
  merge_into-Merged eps old (ok c, s) kept read missing =
      put-Merged eps old (merge_hosts c eps) s (rw (read c refl) refl) kept
  merge_into-Merged eps old (err not_exist, s) kept read missing =
      put-Merged eps old (merge_hosts [] eps) s (rw (missing refl) refl) kept
  merge_into-Merged eps old (err (read_error text), s) kept read missing = (λ h. cc, λ _ _. kept)

  -- For operations that do what the program relies on, writeHosts leaves the file with the merge of
  -- its old text, an empty one if it was missing, where it returns no error, and with its old
  -- content, or missing, where it returns one, whichever call it is that failed.
  pub write_hosts-Merged :
      (eps : List Endpoint) (s : S) → Merged eps (view s path) (write_hosts ops path eps s)
  unfolding write_hosts
  write_hosts-Merged eps s =
      merge_into-Merged eps (view s path) (ops.read_file path s) (laws.read_keeps s)
        (laws.read_ok s) (laws.read_none s)
