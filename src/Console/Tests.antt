-- ===== src/Console/Tests.antt =====
-- Runs of kernel/console.c.
use myos_git.Prelude.{ℕ, ◌≡◌, List, [], ◌∷◌, ◌++◌, arith}
use myos_git.Console.Screen.{Screen}
use myos_git.Console.Screen.Cells.{IsOnScreen}
use myos_git.Console.Print.{Printer}
use myos_git.Console.Keyboard.{Kbs, Terminal, Reading, add_kbdata, kbd_handler}
use myos_git.Console.Keyboard.Fifo.{IsRing, contents, contents-add_kbdata}
use myos_git.Console.Keyboard.Handler.{IsTerminal, kbd_handler-IsTerminal}

-- The cursor in the last column of the last line.
abbrev corner : Screen
corner = record { xpos = 79; ypos = 23; video = λ a. 32 }

corner-IsOnScreen : IsOnScreen corner
corner-IsOnScreen = record { column = omega arith; line = omega arith }

abbrev ok_text : List ℕ
ok_text = 111 ∷ 107 ∷ []

abbrev ok_printed : Printer
ok_printed = record { out = ok_text; num = 2; pflags = 0; lflags = 0; args = [] }

-- One byte waits at the end of the ring.
abbrev last_slot : Kbs
last_slot = record { buf = λ a. 97; rpos = 1023; wpos = 0 }

last_slot-IsRing : IsRing last_slot
last_slot-IsRing = record { read = omega arith; write = omega arith }

contents-add_kbdata_example :
    (contents (add_kbdata 98 last_slot) ≡ contents last_slot ++ 98 ∷ [])
    × IsRing (add_kbdata 98 last_slot)
contents-add_kbdata_example = contents-add_kbdata last_slot 98 last_slot-IsRing (omega arith)

abbrev full_ring : Kbs
full_ring = record { buf = λ a. 97; rpos = 1; wpos = 0 }

-- The key for `a`, and then nothing more.
abbrev readings : List Reading
readings = record { status = 1; scancode = 30 } ∷ record { status = 0; scancode = 0 } ∷ []

abbrev at_corner : Terminal
at_corner = record { kbs = last_slot; screen = corner }

kbd_handler-IsTerminal_example : IsTerminal (kbd_handler readings at_corner)
kbd_handler-IsTerminal_example =
    kbd_handler-IsTerminal readings at_corner
      (record { ring = last_slot-IsRing; on_screen = corner-IsOnScreen })
