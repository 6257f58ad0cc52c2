-- ===== src/Tests/FileCases.antt =====
-- The file operations of hosts.go on a store of contents by path.
use argonaut.Hosts.File.Atomic.{FileLaws, Merged, text_of, write_hosts-Merged}
use argonaut.Hosts.File.{ReadError, not_exist, FileOps, write_hosts}
use argonaut.Hosts.{hosts_path}
use argonaut.Tests.ConfigCases.{sui}
use argonaut.Prelude.{
  ◌≡◌, ◌≢◌, refl, sym, ap, ◌∙◌, inl, inr, [], ◌∷◌, ◌++◌, Option, none, some, Result, ok, err, Bytes,
  codes, equal, equal_iff, if◌then◌else◌, Bool-cases,
}

abbrev pub Store : Type 0
Store = Bytes → Option Bytes

abbrev set : Bytes → Option Bytes → Store → Store
set k v s q = if equal q k then v else s q

abbrev read : Option Bytes → Result ReadError Bytes
read none = err not_exist
read (some c) = ok c

abbrev temp : Bytes
temp = codes "/etc/.argonaut-hosts-1"

-- No call fails but the read of a file that is not there.
abbrev pub disk : FileOps Store
disk = record {
  read_file = λ p s. (read (s p), s);
  create_temp = λ p s. (ok temp, set temp (some []) s);
  write = λ n c s. (none, set n (some (text_of (s n) ++ c)) s);
  chmod = λ n m s. (none, s);
  sync = λ n s. (none, s);
  close = λ n s. (none, s);
  rename = λ a b s. (none, set b (s a) (set a none s));
  remove = λ n s. (none, set n none s);
  open_dir = λ p s. (ok p, s);
}

abbrev pub view : Store → Bytes → Option Bytes
view s q = s q

set_same : (k : Bytes) (v : Option Bytes) (s : Store) → set k v s k ≡ v
set_same k v s = let e = (equal_iff k k).1 refl in rw e

set_other : (k q : Bytes) (v : Option Bytes) (s : Store) → k ≢ q → set k v s q ≡ s q
set_other k q v s h = elim (Bool-cases (equal q k)) [
  | inl e ↦ absurd (h (sym ((equal_iff q k).0 e)))
  | inr e ↦ rw e
]

read-ok : (o : Option Bytes) (c : Bytes) → read o ≡ ok c → o ≡ some c
read-ok none c h = cc
read-ok (some d) c h = let e : d ≡ c = cc h in ap some e

read-none : (o : Option Bytes) → read o ≡ err not_exist → o ≡ none
read-none none h = refl
read-none (some d) h = cc

temp_other : temp ≢ hosts_path
temp_other h = cc

temp_new :
    (s : Store) (name : Bytes)
    → ◌≡◌ {A = Result Bytes Bytes} (ok temp) (ok name)
    → (name ≢ hosts_path) × (set temp (some []) s name ≡ some [])
temp_new s name h = let e : temp ≡ name = cc h in rw (← e) (temp_other, set_same temp (some []) s)

pub disk-FileLaws : FileLaws disk view hosts_path
disk-FileLaws = record {
  read_keeps = λ s. refl;
  read_ok = λ s c h. read-ok (s hosts_path) c h;
  read_none = λ s h. read-none (s hosts_path) h;
  create_keeps = λ s. set_other temp hosts_path (some []) s temp_other;
  create_new = λ s name h. temp_new s name h;
  write_keeps = λ n c s h. set_other n hosts_path _ s h;
  write_appends = λ n c before s h _.
      let t : text_of (s n) ≡ before = ap text_of h in
      set_same n (some (text_of (s n) ++ c)) s ∙ ap (λ b. some (b ++ c)) t;
  chmod_keeps = λ n q m s. refl;
  sync_keeps = λ n q s. refl;
  close_keeps = λ n q s. refl;
  open_keeps = λ q s. refl;
  rename_done = λ n s _. set_same hosts_path (s n) (set n none s);
  rename_failed = λ n e s h. cc;
  remove_keeps = λ n s h. set_other n hosts_path none s h;
}

abbrev pub store : Store
store q = if equal q hosts_path then some (codes "127.0.0.1 localhost\n") else none

write_hosts-Merged_example :
    Merged disk view hosts_path disk-FileLaws
      (sui ∷ [])
      (view store hosts_path)
      (write_hosts disk hosts_path (sui ∷ []) store)
write_hosts-Merged_example = write_hosts-Merged disk view hosts_path disk-FileLaws (sui ∷ []) store
