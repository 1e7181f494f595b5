-- ===== src/Tests/Handles.antt =====
-- Memory areas and files: the first handle is in use, the others are free.
use slate_language.Common.{
  ℕ, ◌+◌, ◌≤◌, ◌≡◌, ◌≢◌, refl, true, [], ◌∷◌, none, some, arith, get_or, ltb, if◌then◌else◌, ◌==◌,
  first_unused, Bool-cases, inl, inr,
}
use slate_language.MemoryAreas.{
  MemoryAreas, memarea_open, memarea_close, memarea_addref, memarea_resize, memarea_read,
  memarea_write, memarea_allocate, memarea_handle_isvalid, copied,
}
use slate_language.MemoryAreas.Copy.{memarea_write_lem}
use slate_language.MemoryAreas.Invariant.{AreasValid, memarea-AreasValid}
use slate_language.Files.{FileTable, file_opened, file_close, file_handle_isvalid, opened}
use slate_language.Files.Handles.{file_open_close}

abbrev areas : MemoryAreas
areas = record {
  areas = λ i. if i == 0 then some (1 ∷ 2 ∷ 3 ∷ []) else none;
  sizes = λ i. if i == 0 then 3 else 0;
  num_refs = λ i. if i == 0 then 1 else 0;
}

areas-AreasValid : AreasValid areas
unfolding AreasValid
areas-AreasValid i = elim (Bool-cases (i == 0)) [
  | inl e ↦ rw e (refl, omega arith)
  | inr n ↦ rw n (refl, refl)
]

allocate_at_1 : memarea_allocate areas ≡ some 1
unfolding memarea_allocate memarea_handle_isvalid first_unused
allocate_at_1 = refl

memarea-AreasValid_example :
    AreasValid (memarea_close areas 0)
    × AreasValid (memarea_addref areas 0)
    × AreasValid (memarea_open areas 2 (some (0 ∷ 0 ∷ []))).0
    × AreasValid (memarea_resize areas 0 2 (some (0 ∷ 0 ∷ []))).0
    × AreasValid (memarea_read areas 0 1 2 (8 ∷ 9 ∷ [])).0
memarea-AreasValid_example =
    memarea-AreasValid areas 0 2 1 2 (some (0 ∷ 0 ∷ [])) (8 ∷ 9 ∷ []) areas-AreasValid (omega arith)
      (omega arith) refl (omega arith)

memarea_write_lem_example :
    let r = memarea_write areas 0 1 2 (8 ∷ 9 ∷ []) in
    (count : ℕ) × (r.1 ≡ copied count)
    × (count ≤ 2)
    × (1 + count ≤ 3)
    × ((i : ℕ)
        → get_or r.0 i 0
          ≡ (if ltb i count then get_or (1 ∷ 2 ∷ 3 ∷ []) i 0 else get_or (8 ∷ 9 ∷ []) i 0))
memarea_write_lem_example =
    memarea_write_lem areas 0 1 2 (1 ∷ 2 ∷ 3 ∷ []) (8 ∷ 9 ∷ []) refl refl (omega arith)
      (omega arith)

abbrev files : FileTable
files = record { file_index = λ i. if i == 0 then some 3 else none; file_index_size = 2 }

file_open_close_example :
    let r = file_opened files 1 (some 4) in
    (r.1 ≡ opened 1)
    × (file_handle_isvalid r.0 1 ≡ true)
    × ((other : ℕ) → other ≢ 1 → r.0.file_index other ≡ files.file_index other)
    × ((other : ℕ) → file_handle_isvalid (file_close r.0 1) other ≡ file_handle_isvalid files other)
unfolding file_handle_isvalid
file_open_close_example = file_open_close files 1 4 (omega arith) (omega arith) refl
