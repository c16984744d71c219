-- ===== src/Sandbox.antt =====
-- src/io_core/file_sandbox.py: the file sandbox and its quotas.
--
-- The tree below the root is the dictionary of its regular files, by resolved path. `resolve` is
-- the resolution of a path by the system, `none` where the path is absolute or leaves the root, and
-- `disk` what the system does when it is to write. The methods run under the lock of the sandbox.
pub mod Quota
mod Tests
use ironharness.Prelude.{
  ℕ, ◌+◌, ◌-◌, Bool, true, false, not, ◌&&◌, Option, none, some, List, [], ◌∷◌, Bytes, length, take,
  String, ltb, if◌then◌else◌,
}
use ironharness.Prelude.Dict.{Dict, lookup, has, insert, remove}

pub record FileSandbox : Type 0 where
  pub files : Dict Bytes
  pub max_bytes : ℕ
  pub max_files : ℕ

pub data Error : Type 0 where
  sandbox_violation quota_exceeded file_exists os_error : Error

pub data Result (A : Type 0) : Type 0 where
  returned : A → Result A
  raised : Error → Result A

-- The write goes through, is refused before the file is opened, or stops after some bytes.
pub data Disk : Type 0 where
  writes : Disk
  refuses : Disk
  stops_after : ℕ → Disk

-- `_usage`
unfoldable pub used_bytes : Dict Bytes → ℕ
used_bytes [] = 0
used_bytes ((_, content) ∷ rest) = length content + used_bytes rest

unfoldable pub used_files : Dict Bytes → ℕ
used_files files = length files

unfoldable pub size_of : Option Bytes → ℕ
size_of none = 0
size_of (some content) = length content

-- `_check_quota`: true where it raises. `extra` is max(adding, 0).
unfoldable pub over_quota : ℕ → ℕ → FileSandbox → Bool
over_quota extra new_files s =
    if ltb s.max_bytes (used_bytes s.files + extra)
    then true
    else ltb s.max_files (used_files s.files + new_files)

unfoldable pub put : Disk → String → Bytes → FileSandbox → Result ℕ × FileSandbox
put writes target content s =
    (returned (length content), record s { files = insert target content s.files })
put refuses target content s = (raised os_error, s)
put (stops_after n) target content s =
    (raised os_error, record s { files = insert target (take n content) s.files })

-- The part of `write_file` behind the resolution.
unfoldable pub write_at : Disk → Bool → String → Bytes → FileSandbox → Result ℕ × FileSandbox
write_at disk overwrite target content s =
    let there = has target s.files in
    let extra = length content - size_of (lookup target s.files) in
    if there && not overwrite
    then (raised file_exists, s)
    else if over_quota extra (if there then 0 else 1) s
    then (raised quota_exceeded, s)
    else put disk target content s

unfoldable pub write_to : Disk → Bool → Option String → Bytes → FileSandbox → Result ℕ × FileSandbox
write_to disk overwrite none content s = (raised sandbox_violation, s)
write_to disk overwrite (some target) content s = write_at disk overwrite target content s

unfoldable pub write_file :
    (String → Option String) → Disk → Bool → String → Bytes → FileSandbox → Result ℕ × FileSandbox
write_file resolve disk overwrite rel_path content s =
    write_to disk overwrite (resolve rel_path) content s

-- The part of `delete_file` behind the resolution; a missing file is an OSError.
unfoldable pub delete_at : String → FileSandbox → Result ℕ × FileSandbox
delete_at target s =
    if has target s.files
    then (returned 0, record s { files = remove target s.files })
    else (raised os_error, s)

unfoldable pub delete_from : Option String → FileSandbox → Result ℕ × FileSandbox
delete_from none s = (raised sandbox_violation, s)
delete_from (some target) s = delete_at target s

unfoldable pub delete_file :
    (String → Option String) → String → FileSandbox → Result ℕ × FileSandbox
delete_file resolve rel_path s = delete_from (resolve rel_path) s
