-- ===== src/Klib/Tests.antt =====
-- Runs of lib/lib.c on small memories.
use myos_git.Prelude.{◌==◌, if◌then◌else◌}
use myos_git.Klib.{Bytes}

-- The strings "ab" at 0 and "b" at 1.
abbrev ab : Bytes
ab a = if a == 0 then 97 else if a == 1 then 98 else 0
