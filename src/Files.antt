-- ===== src/Files.antt =====
-- The table of open files (src/vm/external-files.cpp, as it is built without WIN32; extractCString
-- in src/vm/misc.cpp). A stream is a number, `none` where the table has `NULL`; a handle is the
-- pattern of a `word_t`. What the C library answers is an argument, and so is the state of a stream
-- in the calls that do not change the table.
pub mod Handles
use slate_language.Common.{
  ℕ, zero, suc, ◌+◌, ◌-◌, ◌*◌, ◌/◌, ◌%◌, Bool, true, false, ◌&&◌, ◌||◌, not, List, [], ◌∷◌, ◌++◌,
  Option, none, some, length, ltb, leb, ◌==◌, if◌then◌else◌, update, first_unused,
}
use slate_language.Word.{sign_bit}

abbrev pub slate_files_maximum : ℕ
slate_files_maximum = 256

abbrev pub slate_file_name_length : ℕ
slate_file_name_length = 512

-- `file_index` with `file_index_size` entries.
pub record FileTable : Type 0 where
  pub file_index : ℕ → Option ℕ
  pub file_index_size : ℕ

unfoldable pub file_module_init : FileTable
file_module_init = record { file_index = λ _. none; file_index_size = slate_files_maximum }

abbrev pub is_open : Option ℕ → Bool
is_open none = false
is_open (some stream) = true

unfoldable pub file_handle_isvalid : FileTable → ℕ → Bool
file_handle_isvalid t file =
    ltb file sign_bit && ltb file t.file_index_size && is_open (t.file_index file)

-- The table doubles when it is full, and the new entries are `NULL`.
unfoldable pub file_grow : FileTable → FileTable
file_grow t = record {
  file_index = λ file. if ltb file t.file_index_size then t.file_index file else none;
  file_index_size = t.file_index_size * 2;
}

unfoldable pub file_allocate : FileTable → FileTable × ℕ
file_allocate t = elim (first_unused t.file_index_size (file_handle_isvalid t) 0) [
  | some file ↦ (t, file)
  | none ↦ (file_grow t, t.file_index_size)
]

unfoldable pub file_close : FileTable → ℕ → FileTable
file_close t file =
    if file_handle_isvalid t file
    then record t { file_index = update t.file_index file none }
    else t

-- `extractCString`: the length of the name, `none` for SLATE_ERROR_RETURN.
unfoldable pub extract_c_string : List ℕ → ℕ → Option ℕ
extract_c_string array buffer_size =
    if ltb (buffer_size - 1) (length array) then none else some (length array)

-- `SF_READ`, `SF_WRITE`, `SF_CREATE` and `SF_CLEAR`: bits 0 to 3 of the flags.
abbrev pub sf_read : ℕ → Bool
sf_read flags = flags % 2 == 1

abbrev pub sf_write : ℕ → Bool
sf_write flags = flags / 2 % 2 == 1

abbrev pub sf_create : ℕ → Bool
sf_create flags = flags / 4 % 2 == 1

abbrev pub sf_clear : ℕ → Bool
sf_clear flags = flags / 8 % 2 == 1

-- The characters of a mode, without the final 0.
abbrev pub char_w : ℕ
char_w = 119

abbrev pub char_r : ℕ
char_r = 114

abbrev pub char_b : ℕ
char_b = 98

abbrev pub char_plus : ℕ
char_plus = 43

unfoldable pub file_mode : ℕ → List ℕ
file_mode flags =
    let access =
      if sf_write flags
      then (if sf_clear flags
          then char_w ∷ (if sf_read flags then char_plus ∷ [] else [])
          else char_r ∷ char_plus ∷ [])
      else char_r ∷ [] in
    access ++ char_b ∷ []

-- What `file_open` does: SLATE_ERROR_RETURN, the end of the program by `error`, or a handle.
pub data Opened : Type 0 where
  open_error : Opened
  open_exit : Opened
  opened : ℕ → Opened

-- The rest of `file_open`, when the flags are in order; `stream` is what `fopen` returns.
unfoldable pub file_opened : FileTable → ℕ → Option ℕ → FileTable × Opened
file_opened t file stream =
    let t' : FileTable = record t { file_index = update t.file_index file stream } in
    if file_handle_isvalid t' file then (t', opened file) else (t', open_error)

-- `fopen` on the name and the mode.
unfoldable pub file_open :
    (List ℕ → List ℕ → Option ℕ) → FileTable → List ℕ → ℕ → FileTable × Opened
file_open fopen t name flags = elim (extract_c_string name slate_file_name_length) [
  | none ↦ (t, open_error)
  | some name_length ↦
      let (allocated, file) = file_allocate t in
      if name_length == 0
      then (t, open_error)
      else if (sf_clear flags || sf_create flags) && not (sf_write flags)
      then (allocated, open_exit)
      else if sf_write flags && not (sf_read flags)
      then (allocated, open_exit)
      else file_opened allocated file (fopen name (file_mode flags))
]

-- `file_write`, `file_read`, `file_tell`: the answer of the C library for the stream.
unfoldable pub file_call : (ℕ → ℕ) → FileTable → ℕ → Option ℕ
file_call answer t file = elim (t.file_index file) [
  | none ↦ none
  | some stream ↦ if file_handle_isvalid t file then some (answer stream) else none
]

-- What the C library does with a stream, in a state of its own: `fseek` to the end and from the
-- start, `ftell`, `fgetc` (`none` for EOF) and `ungetc`.
pub record CStreams (S : Type 0) : Type 0 where
  pub fseek_end : S → ℕ → S
  pub fseek_set : S → ℕ → ℕ → S × Bool
  pub ftell : S → ℕ → ℕ
  pub fgetc : S → ℕ → S × Option ℕ
  pub ungetc : S → ℕ → ℕ → S

module _ {S : Type 0} (c : CStreams S) where
  -- Seeks to the end, asks for the position and seeks back.
  unfoldable pub file_sizeof : FileTable → S → ℕ → S × Option ℕ
  file_sizeof t s file = elim (t.file_index file) [
    | none ↦ (s, none)
    | some stream ↦
        let pos = c.ftell s stream in
        let at_end = c.fseek_end s stream in
        let size = c.ftell at_end stream in
        if file_handle_isvalid t file
        then ((c.fseek_set at_end stream pos).0, some size)
        else (s, none)
  ]

  unfoldable pub file_seek : FileTable → S → ℕ → ℕ → S × Option ℕ
  file_seek t s file offset = elim (t.file_index file) [
    | none ↦ (s, none)
    | some stream ↦
        let (sought, done) = c.fseek_set s stream offset in
        if file_handle_isvalid t file
        then (sought, (if done then some (c.ftell sought stream) else none))
        else (s, none)
  ]

  unfoldable pub file_isatend : FileTable → S → ℕ → S × Bool
  file_isatend t s file = elim (t.file_index file) [
    | none ↦ (s, true)
    | some stream ↦
        if file_handle_isvalid t file
        then elim ((c.fgetc s stream).1) [
          | none ↦ ((c.fgetc s stream).0, true)
          | some char ↦ (c.ungetc ((c.fgetc s stream).0) stream char, false)
        ]
        else (s, true)
  ]
