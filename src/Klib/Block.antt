-- ===== src/Klib/Block.antt =====
-- `memset` and `memcpy` byte by byte.
use myos_git.Prelude.{
  ℕ, zero, suc, ◌+◌, ◌-◌, ◌%◌, ◌≤◌, ◌≡◌, ◌⊎◌, Bool, arith, ◌&&◌, leb, ltb, if◌then◌else◌, update,
}
use myos_git.Klib.{Bytes, memset, memcpy}

-- The address lies in base, …, base + n - 1.
abbrev pub within : ℕ → ℕ → ℕ → Bool
within base n a = leb base a && ltb a (base + n)

-- `memset` fills exactly the n bytes from `s` on.
pub memset_lem :
    (mem : Bytes) (s c n a : ℕ) → memset mem s c n a ≡ (if within s n a then c % 256 else mem a)
unfolding memset
memset_lem mem s c zero a = ground arith
memset_lem mem s c (suc n) a = ground (arith, memset_lem (update mem s (c % 256)) (s + 1) c n a)

-- `memcpy` copies n bytes and changes no others, where the blocks do not overlap, and where they do
-- and the destination is below the source.
pub memcpy_lem :
    (mem : Bytes) (dest src n a : ℕ)
    → (dest ≤ src) ⊎ (src + n ≤ dest)
    → memcpy mem dest src n a ≡ (if within dest n a then mem (src + (a - dest)) else mem a)
unfolding memcpy
memcpy_lem mem dest src zero a h = ground arith
memcpy_lem mem dest src (suc n) a h =
    ground (arith, memcpy_lem (update mem dest (mem src)) (dest + 1) (src + 1) n a)
