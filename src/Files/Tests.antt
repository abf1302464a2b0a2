-- ===== src/Files/Tests.antt =====
-- Runs of the file table of src/file_ops.c, and its theorems at concrete tables.
use a_lightweight_os.Base.{◌≡◌, refl, true, false, none, some, [], ◌∷◌, find_first}
use a_lightweight_os.Files

abbrev empty : Files.FileTable
empty = Files.initialize (record {
  files = λ _. record { path = none; is_directory = false; size = 0; exists_now = false };
  file_count = 9;
})

abbrev one : Files.FileTable
one = (Files.mkdir (some (97 ∷ [])) empty).0

move_run : (Files.move (some (97 ∷ [])) (some (98 ∷ [])) one).1 ≡ true
unfolding Files.move Files.mkdir Files.initialize find_first
move_run = refl

-- A slot is not used again once its file is deleted.
delete_run : (Files.delete (some (97 ∷ [])) one).0.file_count ≡ 1
unfolding Files.delete Files.mkdir Files.initialize find_first
delete_run = refl
