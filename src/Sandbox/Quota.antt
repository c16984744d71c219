-- ===== src/Sandbox/Quota.antt =====
-- The quotas of the sandbox hold however writes and deletes follow each other.
use ironharness.Prelude.{
  ℕ, ◌+◌, ◌-◌, ◌≤◌, ◌≡◌, refl, Bool, false, not, ◌&&◌, Option, none, some, List, [], ◌∷◌, Bytes,
  length, take, length-take, String, ltb, ltb→ge, if◌then◌else◌, if_ind, Bool-cases, inl, inr,
  arith,
}
use ironharness.Prelude.Dict.{Dict, same, lookup, has, insert, remove}
use ironharness.Sandbox.{
  FileSandbox, Result, Disk, writes, refuses, stops_after, used_bytes, used_files, size_of,
  over_quota, put, write_at, write_to, write_file, delete_at, delete_from, delete_file,
}

used_bytes-insert :
    (k : String) (v : Bytes) (d : Dict Bytes)
    → used_bytes (insert k v d) + size_of (lookup k d) ≡ used_bytes d + length v
unfolding used_bytes insert lookup size_of
used_bytes-insert k v [] = omega arith
used_bytes-insert k v ((j, w) ∷ d) =
    let ih = used_bytes-insert k v d in
    elim (Bool-cases (same j k)) [ inl e ↦ rw (e) omega arith | inr e ↦ rw (e) omega (arith, ih) ]

length-insert :
    (k : String) (v : Bytes) (d : Dict Bytes)
    → length (insert k v d) ≡ length d + (if has k d then 0 else 1)
unfolding insert lookup
length-insert k v [] = refl
length-insert k v ((j, w) ∷ d) =
    let ih = length-insert k v d in
    elim (Bool-cases (same j k)) [ inl e ↦ rw (e) omega arith | inr e ↦ rw (e) omega (arith, ih) ]

used_bytes-remove : (k : String) (d : Dict Bytes) → used_bytes (remove k d) ≤ used_bytes d
unfolding used_bytes remove
used_bytes-remove k [] = omega arith
used_bytes-remove k ((j, w) ∷ d) =
    let ih = used_bytes-remove k d in
    if_ind (λ (r : Dict Bytes). used_bytes r ≤ length w + used_bytes d) (same j k)
      (λ _. omega (arith, ih)) (λ _. omega (arith, ih))

length-remove : (k : String) (d : Dict Bytes) → length (remove k d) ≤ length d
unfolding remove
length-remove k [] = omega arith
length-remove k ((j, w) ∷ d) =
    let ih = length-remove k d in
    if_ind (λ (r : Dict Bytes). length r ≤ length ((j, w) ∷ d)) (same j k) (λ _. omega (arith, ih))
      (λ _. omega (arith, ih))

count_insert :
    (k : String) (v : Bytes) (d : Dict Bytes)
    → used_files (insert k v d) ≡ used_files d + (if has k d then 0 else 1)
unfolding used_files
count_insert k v d = length-insert k v d

count_remove : (k : String) (d : Dict Bytes) → used_files (remove k d) ≤ used_files d
unfolding used_files
count_remove k d = length-remove k d

-- The tree keeps within both quotas.
pub record Within (s : FileSandbox) : Type 0 where
  pub bytes : used_bytes s.files ≤ s.max_bytes
  pub files : used_files s.files ≤ s.max_files

within_quota :
    (extra new_files : ℕ) (s : FileSandbox)
    → over_quota extra new_files s ≡ false
    → (used_bytes s.files + extra ≤ s.max_bytes) × (used_files s.files + new_files ≤ s.max_files)
unfolding over_quota
within_quota extra new_files s =
    if_ind
      (λ b.
        b ≡ false
        → (used_bytes s.files + extra ≤ s.max_bytes)
          × (used_files s.files + new_files ≤ s.max_files))
      (ltb s.max_bytes (used_bytes s.files + extra)) (λ _ e. cc)
      (λ e f. (ltb→ge _ _ e, ltb→ge _ _ f))

module _ (target : String) (s : FileSandbox) where
  abbrev Kept : Result ℕ × FileSandbox → Type 0
  Kept p = Within p.1

  -- What the quota allows for a text, it allows for a part of it.
  insert-Within :
      (content part : Bytes)
      → length part ≤ length content
      → over_quota
          (length content - size_of (lookup target s.files))
          (if has target s.files then 0 else 1)
          s
        ≡ false
      → Within (record s { files = insert target part s.files })
  insert-Within content part shorter ok =
      let (in_bytes, in_files) = within_quota _ _ s ok in
      record {
        bytes = omega (arith, used_bytes-insert target part s.files);
        files = omega (arith, in_files, count_insert target part s.files);
      }

  put-Within :
      (disk : Disk) (content : Bytes)
      → Within s
      → over_quota
          (length content - size_of (lookup target s.files))
          (if has target s.files then 0 else 1)
          s
        ≡ false
      → Kept (put disk target content s)
  unfolding put
  put-Within writes content v ok = insert-Within content content (omega arith) ok
  put-Within refuses content v ok = v
  put-Within (stops_after n) content v ok =
      insert-Within content (take n content) (omega (arith, length-take n content)) ok

  write_at-Within :
      (disk : Disk) (overwrite : Bool) (content : Bytes)
      → Within s
      → Kept (write_at disk overwrite target content s)
  unfolding write_at
  write_at-Within disk overwrite content v =
      if_ind Kept (has target s.files && not overwrite) (λ _. v)
        (λ _.
          if_ind Kept
            (over_quota (length content - size_of (lookup target s.files))
              (if has target s.files then 0 else 1) s)
            (λ _. v) (put-Within disk content v))

  delete_at-Within : Within s → Kept (delete_at target s)
  unfolding delete_at
  delete_at-Within v =
      if_ind Kept (has target s.files)
        (λ _. record {
          bytes = omega (arith, v.bytes, used_bytes-remove target s.files);
          files = omega (arith, v.files, count_remove target s.files);
        })
        (λ _. v)

write_to-Within :
    (disk : Disk) (overwrite : Bool) (target : Option String) (content : Bytes) (s : FileSandbox)
    → Within s
    → Within (write_to disk overwrite target content s).1
unfolding write_to
write_to-Within disk overwrite none content s v = v
write_to-Within disk overwrite (some target) content s v =
    write_at-Within target s disk overwrite content v

delete_from-Within :
    (target : Option String) (s : FileSandbox) → Within s → Within (delete_from target s).1
unfolding delete_from
delete_from-Within none s v = v
delete_from-Within (some target) s v = delete_at-Within target s v

-- A call of a method that changes the tree, with the system's part in it.
pub data Call : Type 0 where
  write : Disk → Bool → String → Bytes → Call
  delete : String → Call

module _ (resolve : String → Option String) where
  pub call : Call → FileSandbox → FileSandbox
  call (write disk overwrite path content) s = (write_file resolve disk overwrite path content s).1
  call (delete path) s = (delete_file resolve path s).1

  pub calls : List Call → FileSandbox → FileSandbox
  calls [] s = s
  calls (c ∷ cs) s = calls cs (call c s)

  call-Within : (c : Call) (s : FileSandbox) → Within s → Within (call c s)
  unfolding call write_file delete_file
  call-Within (write disk overwrite path content) s v =
      write_to-Within disk overwrite (resolve path) content s v
  call-Within (delete path) s v = delete_from-Within (resolve path) s v

  -- A tree within both quotas stays within them, whatever writes and deletes follow, whether a
  -- write goes through, is refused or stops half way.
  pub calls-Within : (cs : List Call) (s : FileSandbox) → Within s → Within (calls cs s)
  unfolding calls
  calls-Within [] s v = v
  calls-Within (c ∷ cs) s v = calls-Within cs (call c s) (call-Within c s v)
