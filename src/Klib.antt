-- ===== src/Klib.antt =====
-- lib/lib.c: byte strings in a flat memory, as the kernel and the user programs use them.
pub mod Block
pub mod Compare
mod Tests
use myos_git.Prelude.{
  ℕ, zero, suc, ◌+◌, ◌-◌, ◌%◌, Bool, Option, none, some, not, ◌||◌, ◌&&◌, ◌==◌, if◌then◌else◌,
  update,
}
use myos_git.Prelude.Int.{ℤ, pos, negsuc}

-- A memory of bytes.
abbrev pub Bytes : Type 0
Bytes = ℕ → ℕ

-- The rounds left are the source's `n`.
pub memset : Bytes → ℕ → ℕ → ℕ → Bytes
memset mem s c zero = mem
memset mem s c (suc n) = memset (update mem s (c % 256)) (s + 1) c n

pub memcpy : Bytes → ℕ → ℕ → ℕ → Bytes
memcpy mem dest src zero = mem
memcpy mem dest src (suc n) = memcpy (update mem dest (mem src)) (dest + 1) (src + 1) n

-- The returns behind the loop of `strcmp`.
strcmp_end : ℕ → ℕ → ℤ
strcmp_end a b = if a == 0 && b == 0 then pos 0 else if a == 0 then negsuc 0 else pos 1

-- The loop on fuel; none is fuel that ran out. `(*s1 - *s2) ? 1 : -1` tests the difference for zero.
-- The two strings may lie in different parts of the model's memory, hence the two memories.
pub strcmp : ℕ → Bytes → ℕ → Bytes → ℕ → Option ℤ
unfolding strcmp_end
strcmp zero mem1 s1 mem2 s2 = none
strcmp (suc fuel) mem1 s1 mem2 s2 =
    let rest = strcmp fuel mem1 (s1 + 1) mem2 (s2 + 1) in
    if not (mem1 s1 == 0) || not (mem2 s2 == 0)
    then (if mem1 s1 == mem2 s2
        then rest
        else if not (mem1 s1 == mem2 s2)
        then some (pos 1)
        else some (negsuc 0))
    else some (strcmp_end (mem1 s1) (mem2 s2))
