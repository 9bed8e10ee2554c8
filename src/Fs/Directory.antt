-- ===== src/Fs/Directory.antt =====
-- The directory: `walk_path` of kernel/fs.c.
pub mod Lookup
use myos_git.Prelude.{ℕ, zero, suc, ◌+◌, ◌*◌, ◌/◌, Option, none, some, ◌==◌, if◌then◌else◌}
use myos_git.Prelude.Int.{ℤ, pos, negsuc, is_zero}
use myos_git.Klib.{Bytes, strcmp}
use myos_git.Prelude.Result.{Res, ok, fault, and_then, ◌>>=◌}
use myos_git.Fs.State.{Inode, Fs}
use myos_git.Fs.Blocks.{Diskno, unset, bread, half_at, deref, walk_block}

-- `ROOT_INODE`, `sizeof(struct direct_t)`, and `BLKSIZE / sizeof(struct direct_t)`.
abbrev pub root_inode : ℕ
root_inode = 0

abbrev pub direct_size : ℕ
direct_size = 16

abbrev pub entries : ℕ
entries = 256

-- What the `while` over a block's entries ends with: it found the inode number, it went through all
-- entries, or a `strcmp` ran out of the model's fuel.
pub data Search : Type 0 where
  found : ℕ → Search
  ended : Search
  stuck : Search

compared : Option ℤ → ℕ → Search → Search
compared none ino rest = stuck
compared (some r) ino rest = if is_zero r then found ino else rest

-- The `while`, with the entries left, `BLKSIZE / sizeof(struct direct_t) - j`. `names` is the memory of
-- `fname`.
pub search_block : ℕ → Bytes → Bytes → ℕ → ℕ → ℕ → Search
unfolding compared half_at
search_block fuel names buf fname pdir zero = ended
search_block fuel names buf fname pdir (suc n) =
    compared (strcmp fuel buf (pdir + 2) names fname) (buf pdir + 256 * buf (pdir + 1))
      (search_block fuel names buf fname (pdir + direct_size) n)

-- The return value and `*inode`, as the inode's number; none is fuel that ran out.
abbrev pub Answer : Type 0
Answer = Option (ℤ × Option ℕ)

-- The rest of the `for` after a block's `while`. The `while` leaves `j` at its end, so the later
-- blocks of the directory have no entries left.
searched : Search → Res Fs Answer → Fs → Res Fs Answer
searched (found ino) rest s = ok (some (pos 0, some ino)) s
searched ended rest s = rest
searched stuck rest s = ok none s

-- The body of the `for` behind `walk_block`, with the loop's rest for both values of `j`.
after_walk : ℕ → Bytes → ℕ → ℕ → ℤ × Diskno → (ℕ → Diskno → Fs → Res Fs Answer) → Fs → Res Fs Answer
unfolding searched
after_walk fuel names fname left (negsuc n, diskno) rest s = ok (some (negsuc 1, none)) s
after_walk fuel names fname left (pos n, diskno) rest s = and_then (deref diskno s) (λ bno t.
    if bno == 0
    then rest left diskno t
    else and_then (bread bno t)
        (λ buf u. searched (search_block fuel names buf fname 0 left) (rest 0 diskno u) u))

-- The `for` from the block `i` on, with the rounds left.
walk_blocks : ℕ → Bytes → ℕ → ℕ → ℕ → ℕ → Diskno → Fs → Res Fs Answer
unfolding after_walk
walk_blocks fuel names fname i zero left diskno s = ok (some (negsuc 0, none)) s
walk_blocks fuel names fname i (suc n) left diskno s =
    and_then (walk_block root_inode i diskno 0 s)
      (λ r t. after_walk fuel names fname left r (walk_blocks fuel names fname (i + 1) n) t)

pub walk_path : ℕ → Bytes → ℕ → Fs → Res Fs Answer
walk_path fuel names fname s =
    walk_blocks fuel names fname 0 ((s.ino_table root_inode).di_size / 4096) entries unset s
