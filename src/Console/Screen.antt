-- ===== src/Console/Screen.antt =====
-- The text screen of kernel/console.c: `cls`, `init_vga` and `myputchar`. The bytes of the video
-- memory are numbered from the address in `video`.
pub mod Cells
use myos_git.Prelude.{
  ℕ, zero, suc, ◌+◌, ◌-◌, ◌*◌, ◌%◌, Bool, List, [], ◌∷◌, ◌||◌, ◌==◌, leb, if◌then◌else◌, update,
}
use myos_git.Klib.{Bytes, memcpy}

abbrev pub columns : ℕ
columns = 80

abbrev pub lines : ℕ
lines = 24

abbrev pub consize : ℕ
consize = columns * lines

abbrev pub attribute : ℕ
attribute = 7

pub record Screen : Type 0 where
  pub xpos : ℕ
  pub ypos : ℕ
  pub video : Bytes

-- The loops that clear the bytes from `i` on.
clear_from : ℕ → ℕ → Bytes → Bytes
clear_from i zero video = video
clear_from i (suc n) video = clear_from (i + 1) n (update video i 0)

pub cls : Screen → Screen
cls s = record { xpos = 0; ypos = 0; video = clear_from 0 (columns * lines * 2) s.video }

-- The `memcpy` of all lines but the first over the lines above, and the loop over the last line.
scroll : Bytes → Bytes
scroll video =
    clear_from ((consize - columns) * 2) (columns * 2)
      (memcpy video 0 (columns * 2) ((consize - columns) * 2))

-- The code behind the label `newline`.
newline : Screen → Screen
newline s =
    let y = s.ypos + 1 in
    if leb lines y
    then record { xpos = 0; ypos = y - 1; video = scroll s.video }
    else record s { xpos = 0; ypos = y }

pub cell : Screen → ℕ
cell s = (s.xpos + s.ypos * columns) * 2

-- The two writes of a character at the cursor, and `xpos++`.
put_cell : ℕ → Screen → Screen
unfolding cell
put_cell c s = record s {
  xpos = s.xpos + 1;
  video = update (update s.video (cell s) (c % 256)) (cell s + 1) attribute;
}

pub myputchar : ℕ → Screen → Screen
unfolding newline put_cell
myputchar c s =
    if c == 10 || c == 13
    then newline s
    else let s' = put_cell c s in if leb columns s'.xpos then newline s' else s'

unfoldable pub put_all : List ℕ → Screen → Screen
put_all [] s = s
put_all (c ∷ cs) s = put_all cs (myputchar c s)
