-- ===== src/Files.antt =====
-- src/file_ops.c: the table of files behind delete, copy, mkdir and move. A path is a C string, the
-- list of its bytes before the terminating 0, or `none` for NULL. The results 0 and -1 are `true` and
-- `false`.
pub mod Table
mod Tests
use a_lightweight_os.Base.{
  ℕ, ◌+◌, Bool, true, false, ◌&&◌, Option, none, some, List, [], ◌∷◌, leb, ◌==◌, if◌then◌else◌,
  update, find_first,
}

-- The comparison of two strings byte by byte, up to the end of one.
unfoldable pub same_bytes : List ℕ → List ℕ → Bool
same_bytes [] [] = true
same_bytes [] (b ∷ bs) = false
same_bytes (a ∷ as') [] = false
same_bytes (a ∷ as') (b ∷ bs) = (a == b) && same_bytes as' bs

unfoldable pub strings_equal : Option (List ℕ) → Option (List ℕ) → Bool
unfolding same_bytes
strings_equal none b = false
strings_equal (some a) none = false
strings_equal (some a) (some b) = same_bytes a b

pub record File : Type 0 where
  pub path : Option (List ℕ)
  pub is_directory : Bool
  pub size : ℕ
  pub exists_now : Bool

pub record FileTable : Type 0 where
  pub files : ℕ → File
  pub file_count : ℕ

abbrev pub max_files : ℕ
max_files = 64

pub initialize : FileTable → FileTable
initialize t = record t { file_count = 0 }

-- `strings_equal(file_table[i].path, path) && file_table[i].exists`
pub matches : (ℕ → File) → List ℕ → ℕ → Bool
unfolding strings_equal
matches fs path i = strings_equal (fs i).path (some path) && (fs i).exists_now

-- The loop that the operations share: the first file that exists under the path.
pub find_file : FileTable → List ℕ → Option ℕ
unfolding matches
find_file t path = find_first (matches t.files path) t.file_count 0

pub delete_at : Option ℕ → FileTable → FileTable × Bool
delete_at none t = (t, false)
delete_at (some i) t =
    (record t { files = update t.files i (record (t.files i) { exists_now = false }) }, true)

pub delete : Option (List ℕ) → FileTable → FileTable × Bool
unfolding find_file delete_at
delete none t = (t, false)
delete (some path) t = delete_at (find_file t path) t

-- `file_table[file_count] = f; file_count++;`
pub append_file : File → FileTable → FileTable
append_file f t = record { files = update t.files t.file_count f; file_count = t.file_count + 1 }

pub copy_at : List ℕ → Option ℕ → FileTable → FileTable × Bool
unfolding append_file
copy_at dst none t = (t, false)
copy_at dst (some i) t =
    if leb max_files t.file_count
    then (t, false)
    else (append_file (record (t.files i) { path = some dst; exists_now = true }) t, true)

pub copy : Option (List ℕ) → Option (List ℕ) → FileTable → FileTable × Bool
unfolding find_file copy_at
copy none dst t = (t, false)
copy (some src) none t = (t, false)
copy (some src) (some dst) t = copy_at dst (find_file t src) t

pub mkdir : Option (List ℕ) → FileTable → FileTable × Bool
unfolding append_file
mkdir none t = (t, false)
mkdir (some path) t = if leb max_files t.file_count then (t, false) else (
  append_file (record { path = some path; is_directory = true; size = 0; exists_now = true }) t,
  true,
)

pub move_at : List ℕ → Option ℕ → FileTable → FileTable × Bool
move_at dst none t = (t, false)
move_at dst (some i) t =
    (record t { files = update t.files i (record (t.files i) { path = some dst }) }, true)

pub move : Option (List ℕ) → Option (List ℕ) → FileTable → FileTable × Bool
unfolding find_file move_at
move none dst t = (t, false)
move (some src) none t = (t, false)
move (some src) (some dst) t = move_at dst (find_file t src) t
