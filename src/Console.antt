-- ===== src/Console.antt =====
-- kernel/console.c: the text screen, the number printers, the formatted print and the keyboard.
pub mod Screen
pub mod Number
pub mod Print
pub mod Keyboard
mod Tests
