-- ===== src/Files/Handles.antt =====
-- The handles of open files (src/vm/external-files.cpp).
use slate_language.Common.{
  ℕ, ◌≤◌, ◌<◌, ◌≡◌, ◌≢◌, refl, Bool, true, false, Option, none, some, if◌then◌else◌, update, arith,
  first_unused-some, first_unused, Option-cases, inl, inr, ap, update_self, eq-cases, lt→ltb,
}
use slate_language.Word.{sign_bit}
use slate_language.Files.{
  FileTable, file_handle_isvalid, file_grow, file_allocate, file_close, file_opened, opened,
}

-- What `file_allocate` promises.
pub record Allocated (t : FileTable) (r : FileTable × ℕ) : Type 0 where
  pub unused : file_handle_isvalid t r.1 ≡ false
  pub inside : r.1 < r.0.file_index_size
  pub larger : t.file_index_size ≤ r.0.file_index_size
  pub kept :
      (file : ℕ) → file_handle_isvalid t file ≡ true → r.0.file_index file ≡ t.file_index file
  pub same_valid : (file : ℕ) → file_handle_isvalid r.0 file ≡ file_handle_isvalid t file

grown-Allocated :
    (t : FileTable) → 1 ≤ t.file_index_size → Allocated t (file_grow t, t.file_index_size)
unfolding file_grow file_handle_isvalid
grown-Allocated t some_room = record {
  unused = ground arith;
  inside = omega arith;
  larger = omega arith;
  kept = λ file v. ground arith;
  same_valid = λ file. ground arith;
}

-- For a table with an entry at least, the allocation returns a handle that was not valid and is
-- inside the table it leaves, which is not smaller; every handle is as valid as before, and a
-- valid one has the same stream.
file_allocate-Allocated : (t : FileTable) → 1 ≤ t.file_index_size → Allocated t (file_allocate t)
unfolding file_allocate
file_allocate-Allocated t some_room =
    elim (Option-cases (first_unused t.file_index_size (file_handle_isvalid t) 0)) [
      | inl e ↦ rw (file_allocate, e) (grown-Allocated t some_room)
      | inr (file, e) ↦
          let f = first_unused-some t.file_index_size (file_handle_isvalid t) 0 file e in
          rw (file_allocate, e)
            (record {
              unused = f.0;
              inside = omega (arith, f.2);
              larger = omega arith;
              kept = λ _ _. refl;
              same_valid = λ _. refl;
            })
    ]

file_opened-some :
    (t : FileTable) (file stream : ℕ)
    → file < t.file_index_size
    → t.file_index_size < sign_bit
    → file_opened t file (some stream)
      ≡ (record t { file_index = update t.file_index file (some stream) }, opened file)
unfolding file_opened file_handle_isvalid
file_opened-some t file stream lt small =
    rw
      (
        update_self t.file_index file,
        lt→ltb file t.file_index_size lt,
        lt→ltb file sign_bit (omega arith),
      )
      refl

file_close_valid :
    (t : FileTable) (file : ℕ)
    → file_handle_isvalid t file ≡ true
    → file_close t file ≡ record t { file_index = update t.file_index file none }
unfolding file_close
file_close_valid t file v =
    ap (λ (b : Bool). if b then record t { file_index = update t.file_index file none } else t) v

-- The entry of an unused handle is as good as `NULL`.
reset_valid :
    (t : FileTable) (file : ℕ) (stream : Option ℕ)
    → file_handle_isvalid t file ≡ false
    → (other : ℕ)
    → file_handle_isvalid
        (record t { file_index = update (update t.file_index file stream) file none })
        other
      ≡ file_handle_isvalid t other
unfolding file_handle_isvalid update
reset_valid t file stream unused other = elim (eq-cases other file) [
  | inl e ↦ rw (e, unused) (ground arith)
  | inr n ↦ ground arith
]

-- For a handle inside the table that is not valid, when fopen returned a stream, the rest of
-- the opening returns the handle, which is then valid, and keeps the other streams; after the
-- handle is closed, exactly those handles are valid that were before.
pub file_open_close :
    (t : FileTable) (file stream : ℕ)
    → file < t.file_index_size
    → t.file_index_size < sign_bit
    → file_handle_isvalid t file ≡ false
    → let r = file_opened t file (some stream) in
      (r.1 ≡ opened file)
      × (file_handle_isvalid r.0 file ≡ true)
      × ((other : ℕ) → other ≢ file → r.0.file_index other ≡ t.file_index other)
      × ((other : ℕ)
          → file_handle_isvalid (file_close r.0 file) other ≡ file_handle_isvalid t other)
unfolding file_handle_isvalid update
file_open_close t file stream lt small unused =
    let t' : FileTable = record t { file_index = update t.file_index file (some stream) } in
    let valid : file_handle_isvalid t' file ≡ true = ground arith in
    rw (file_opened-some t file stream lt small) (
      refl,
      valid,
      λ other n. ground arith,
      λ other. rw (file_close_valid t' file valid) (reset_valid t file (some stream) unused other),
    )
