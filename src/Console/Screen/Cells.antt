-- ===== src/Console/Screen/Cells.antt =====
-- Where `myputchar` writes, and what it leaves on the screen.
use myos_git.Prelude.{
  ℕ, zero, suc, ◌+◌, ◌*◌, ◌%◌, ◌<◌, ◌≡◌, Bool, List, [], ◌∷◌, arith, ◌&&◌, ◌||◌, ◌==◌, ltb,
  if◌then◌else◌, update,
}
use myos_git.Klib.{Bytes, memcpy}
use myos_git.Klib.Block.{within, memcpy_lem}
use myos_git.Console.Screen.{
  Screen, columns, lines, clear_from, cls, scroll, newline, put_cell, myputchar, put_all,
}

-- The cursor is on the screen.
pub record IsOnScreen (s : Screen) : Type 0 where
  pub column : s.xpos < columns
  pub line : s.ypos < lines

clear_from_lem :
    (i n : ℕ) (video : Bytes) (a : ℕ)
    → clear_from i n video a ≡ (if within i n a then 0 else video a)
unfolding clear_from
clear_from_lem i zero video a = ground arith
clear_from_lem i (suc n) video a = ground (arith, clear_from_lem (i + 1) n (update video i 0) a)

-- After a scroll each line holds what the line below held, and the last line is empty.
abbrev pub scrolled : Bytes → Bytes
scrolled video a = if ltb a 3680 then video (a + 160) else if ltb a 3840 then 0 else video a

scroll_lem : (video : Bytes) (a : ℕ) → scroll video a ≡ scrolled video a
unfolding scroll
scroll_lem video a =
    ground
      (arith, clear_from_lem 3680 160 (memcpy video 0 160 3680) a, memcpy_lem video 0 160 3680 a)

-- `cls` leaves an empty screen with the cursor at the origin.
pub cls_lem :
    (s : Screen) (a : ℕ)
    → ((cls s).video a ≡ (if ltb a 3840 then 0 else s.video a)) × IsOnScreen (cls s)
unfolding cls
cls_lem s a = (ground (arith, clear_from_lem 0 3840 s.video a), omega arith)

pub myputchar-IsOnScreen : (c : ℕ) (s : Screen) → IsOnScreen s → IsOnScreen (myputchar c s)
unfolding myputchar
myputchar-IsOnScreen c s h = ground arith

-- Whatever characters are put, the cursor stays on the screen.
pub put_all-IsOnScreen : (cs : List ℕ) (s : Screen) → IsOnScreen s → IsOnScreen (put_all cs s)
unfolding put_all
put_all-IsOnScreen [] s h = h
put_all-IsOnScreen (c ∷ cs) s h = put_all-IsOnScreen cs (myputchar c s) (myputchar-IsOnScreen c s h)

abbrev pub is_break : ℕ → Bool
is_break c = c == 10 || c == 13

-- The video memory with the character at the cursor.
abbrev pub drawn : ℕ → Screen → Bytes
drawn c s a =
    if is_break c
    then s.video a
    else if (s.xpos + s.ypos * 80) * 2 == a
    then c % 256
    else if (s.xpos + s.ypos * 80) * 2 + 1 == a
    then 7
    else s.video a

-- The cursor goes to the start of the next line.
abbrev pub turns : ℕ → Screen → Bool
turns c s = is_break c || s.xpos == 79

newline-video :
    (s : Screen) (a : ℕ)
    → s.ypos < 24
    → (newline s).video a ≡ (if s.ypos == 23 then scrolled s.video a else s.video a)
unfolding newline
newline-video s a h = ground (arith, scroll_lem s.video a)

-- `myputchar` on the screen: a character other than a line break is drawn at the cursor with its
-- attribute; a line break or the last column takes the cursor to the next line, and on the last
-- line the text moves up by one line instead; nothing else changes.
pub myputchar_lem :
    (c : ℕ) (s : Screen) (a : ℕ)
    → IsOnScreen s
    → ((myputchar c s).xpos ≡ (if turns c s then 0 else s.xpos + 1))
      × ((myputchar c s).ypos ≡ (if turns c s && ltb s.ypos 23 then s.ypos + 1 else s.ypos))
      × ((myputchar c s).video a
          ≡ (if turns c s && s.ypos == 23 then scrolled (drawn c s) a else drawn c s a))
unfolding myputchar
myputchar_lem c s a h =
    (ground arith, ground arith, ground (arith, newline-video s a, newline-video (put_cell c s) a))
