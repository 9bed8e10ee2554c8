-- ===== src/Image/Tests.antt =====
-- A blank image and its first entry.
use myos_git.Prelude.{refl}
use myos_git.Prelude.Result.{Returns}
use myos_git.Image.State.{Image}
use myos_git.Image.Blank.{all_free}
use myos_git.Image.Build.{alloc_file}
use myos_git.Image.Build.Entry.{IsPlaced, alloc_file-IsPlaced}

-- An image of zeros.
abbrev zeros : Image
zeros = record {
  blk_bitmap = all_free;
  ino_bitmap = all_free;
  ino_table = λ i. record { di_size = 0; di_type = 0; block = λ j. 0 };
  img = λ b p. 0;
}

alloc_file-IsPlaced_example : Returns (IsPlaced zeros) (alloc_file zeros)
alloc_file-IsPlaced_example = alloc_file-IsPlaced zeros refl
