-- ===== src/Image/Build.antt =====
-- The image's file and its directory entry: `alloc_file`, `write_file`, `walk_path` and
-- `create_file_image` of scripts/mkxxx.c.
pub mod Entry
use myos_git.Prelude.{
  ℕ, zero, suc, ◌+◌, ◌-◌, ◌*◌, ◌/◌, ◌%◌, ◌^◌, Option, none, some, List, [], ◌∷◌, ◌||◌, ◌==◌, leb,
  ltb, if◌then◌else◌, update,
}
use myos_git.Prelude.Int.{ℤ, pos, negsuc}
use myos_git.Prelude.Result.{Res, ok, fault, and_then}
use myos_git.Klib.{Bytes}
use myos_git.Fs.State.{Inode}
use myos_git.Fs.Bitmap.{get_free_no, set_bitmap}
use myos_git.Fs.Directory.{Search, found, ended, stuck, search_block}
use myos_git.File.Transfer.{copy_between}
use myos_git.Image.State.{Image}
use myos_git.Image.Blocks.{Pointer, unset, load, store, walk_block, set_inode}

-- A place in the image: a block and a byte in it.
pub record Place : Type 0 where
  pub blk : ℕ
  pub at : ℕ

-- The search of `alloc_file` for an empty name, with the entries left.
empty_entry : Bytes → (p n : ℕ) → Option ℕ
empty_entry buf p zero = none
empty_entry buf p (suc n) =
    let rest = empty_entry buf (p + 16) n in if buf (p + 2) == 0 then some p else rest

-- The rest of the round, and of the loop with `j` at its end.
placed : ℕ → Option ℕ → Res Image (ℤ × Option Place) → Image → Res Image (ℤ × Option Place)
placed bno none rest s = rest
placed bno (some p) rest s = ok (pos 0, some (record { blk = bno; at = p })) s

-- The body of the loop behind `walk_block`, with the loop's rest.
at_block :
    (left : ℕ)
    → ℤ × Pointer
    → (ℕ → Pointer → Image → Res Image (ℤ × Option Place))
    → Image
    → Res Image (ℤ × Option Place)
unfolding placed empty_entry
at_block left (negsuc n, diskno) rest s = ok (negsuc 1, none) s
at_block left (pos n, diskno) rest s = and_then (load diskno s) (λ bno t.
    if bno == 0
    then rest left diskno t
    else placed bno (empty_entry (t.img bno) 0 left) (rest 0 diskno t) t)

-- The new block of the directory.
new_dir_block : Option ℕ → Pointer → Image → Res Image (ℤ × Option Place)
new_dir_block none diskno s = ok (negsuc 0, none) s
new_dir_block (some bno) diskno s =
    let p = s.ino_table 0 in
    let t = set_inode 0 (record p { di_size = (p.di_size + 4096) % 2 ^ 32 }) s in
    and_then (store diskno bno t) (λ r u.
      ok (pos 0, some (record { blk = bno; at = 0 }))
        (record u { blk_bitmap = set_bitmap u.blk_bitmap bno }))

-- `alloc_file` behind its loop.
extend : ℤ × Pointer → Image → Res Image (ℤ × Option Place)
unfolding new_dir_block
extend (negsuc n, diskno) s = ok (negsuc 1, none) s
extend (pos n, diskno) s = new_dir_block (get_free_no s.blk_bitmap) diskno s

-- The loop of `alloc_file` from the block `i` on, with the rounds left.
dir_blocks : (n i left : ℕ) → Pointer → Image → Res Image (ℤ × Option Place)
unfolding at_block extend
dir_blocks zero i left diskno s = and_then (walk_block 0 i diskno 1 s) (λ r t. extend r t)
dir_blocks (suc n) i left diskno s =
    and_then (walk_block 0 i diskno 1 s) (λ r t. at_block left r (dir_blocks n (i + 1)) t)

-- The result and `*dir`.
pub alloc_file : Image → Res Image (ℤ × Option Place)
unfolding dir_blocks
alloc_file s = dir_blocks ((s.ino_table 0).di_size / 4096) 0 256 unset s

-- What a `read` of the file gives: the bytes and their number.
pub record Chunk : Type 0 where
  pub buf : Bytes
  pub count : ℕ

-- The block of the round, a new one if there is none; none is -1.
file_block : ℕ → Option ℕ → Pointer → Image → Res Image (Option ℕ)
file_block bno none diskno s = if bno == 0 then ok none s else ok (some bno) s
file_block bno (some new) diskno s =
    let fresh =
      and_then (store diskno new s)
        (λ r t. ok (some new) (record t { blk_bitmap = set_bitmap t.blk_bitmap new })) in
    if bno == 0 then fresh else ok (some bno) s

-- The copy of the round and the file's new size, with the loop's rest.
copy_part :
    Option ℕ
    → (ino i p bn : ℕ) → Bytes
    → Pointer
    → (Image → Res Image (ℤ × Pointer))
    → Image
    → Res Image (ℤ × Pointer)
copy_part none ino i p bn buf diskno rest s = ok (negsuc 0, diskno) s
copy_part (some bno) ino i p bn buf diskno rest s =
    let t = record s { img = update s.img bno (copy_between (s.img bno) (i % 4096) buf p bn) } in
    let inode = t.ino_table ino in
    rest (set_inode ino (record inode { di_size = (inode.di_size + bn) % 2 ^ 32 }) t)

-- A round behind `walk_block`.
part :
    ℤ × Pointer
    → (ino i p bn : ℕ) → Bytes
    → (Pointer → Image → Res Image (ℤ × Pointer))
    → Image
    → Res Image (ℤ × Pointer)
unfolding file_block copy_part
part (negsuc n, diskno) ino i p bn buf rest s = ok (negsuc 0, diskno) s
part (pos n, diskno) ino i p bn buf rest s = and_then (load diskno s) (λ bno t.
    and_then (file_block bno (get_free_no t.blk_bitmap) diskno t)
      (λ own u. copy_part own ino i p bn buf diskno (rest diskno) u))

-- The loop over what one `read` gave, on fuel; each round but a fault moves at least one byte. A `bn` that is
-- not positive is a fault, since the loop then does not end or `memcpy` runs over all memory.
write_chunk : (fuel ino offset count i p : ℕ) → Bytes → Pointer → Image → Res Image (ℤ × Pointer)
unfolding part
write_chunk zero ino offset count i p buf diskno s = ok (pos 0, diskno) s
write_chunk (suc fuel) ino offset count i p buf diskno s =
    let bn = if ltb (4096 - i) (count - i) then 4096 - i else count - i in
    let round =
      and_then (walk_block ino ((s.ino_table ino).di_size / 4096) diskno 1 s) (λ r t.
        part r ino i p bn buf (write_chunk fuel ino offset count (i + bn) (p + bn) buf) t) in
    if ltb i (count + offset)
    then (if leb count i || leb 4096 i then fault else round)
    else ok (pos 0, diskno) s

or_stop : ℤ × Pointer → (Pointer → Image → Res Image ℤ) → Image → Res Image ℤ
or_stop (pos n, diskno) rest s = rest diskno s
or_stop (negsuc n, diskno) rest s = ok (negsuc n) s

-- The loop over the chunks that `read` gives.
write_chunks : ℕ → List Chunk → Pointer → Image → Res Image ℤ
unfolding write_chunk or_stop
write_chunks ino [] diskno s = ok (pos 0) s
write_chunks ino (c ∷ cs) diskno s =
    let offset = (s.ino_table ino).di_size % 4096 in
    and_then (write_chunk c.count ino offset c.count offset 0 c.buf diskno s)
      (λ r t. or_stop r (write_chunks ino cs) t)

-- None is a file that does not open.
pub write_file : ℕ → Option (List Chunk) → Image → Res Image ℤ
unfolding write_chunks
write_file ino none s = ok (negsuc 0) s
write_file ino (some cs) s = write_chunks ino cs unset s

-- The body of `walk_path` behind `walk_block`, with the entries left and the loop's rest. The names are
-- compared as in the kernel, by the library's `strcmp`.
path_block :
    (fuel : ℕ) (names : Bytes) (fname left : ℕ)
    → ℤ × Pointer
    → (ℕ → Pointer → Image → Res Image (Option ℤ))
    → Image
    → Res Image (Option ℤ)
path_block fuel names fname left (negsuc n, diskno) rest s = ok (some (negsuc 1)) s
path_block fuel names fname left (pos n, diskno) rest s = and_then (load diskno s) (λ bno t.
    if bno == 0
    then rest left diskno t
    else searched (search_block fuel names (t.img bno) fname 0 left) (rest 0 diskno t) t)
  where
    searched : Search → Res Image (Option ℤ) → Image → Res Image (Option ℤ)
    searched (found ino) rest t = ok (some (pos 0)) t
    searched ended rest t = rest
    searched stuck rest t = ok none t

path_blocks :
    (fuel : ℕ) (names : Bytes) (fname i n left : ℕ) → Pointer → Image → Res Image (Option ℤ)
unfolding path_block
path_blocks fuel names fname i zero left diskno s = ok (some (negsuc 0)) s
path_blocks fuel names fname i (suc n) left diskno s =
    and_then (walk_block 0 i diskno 0 s)
      (λ r t. path_block fuel names fname left r (path_blocks fuel names fname (i + 1) n) t)

-- None is fuel that ran out.
pub walk_path : (fuel : ℕ) → Bytes → ℕ → Image → Res Image (Option ℤ)
unfolding path_blocks
walk_path fuel names fname s =
    path_blocks fuel names fname 0 ((s.ino_table 0).di_size / 4096) 256 unset s

-- `strncpy`: the bytes up to a NUL, and then zeros.
pub strncpy : Bytes → (dest : ℕ) → Bytes → (src n : ℕ) → Bytes
strncpy mem dest names src zero = mem
strncpy mem dest names src (suc n) =
    let src' = if names src == 0 then src else src + 1 in
    strncpy (update mem dest (names src)) (dest + 1) names src' n

-- `create_file_image` with its entry's place and the number of its inode.
with_inode : Bytes → ℕ → Option (List Chunk) → Place → Option ℕ → Image → Res Image ℤ
unfolding strncpy
with_inode names fname content dir none s = ok (negsuc 0) s
with_inode names fname content dir (some ino) s =
    let p = s.ino_table ino in
    let t =
      set_inode ino (record p { di_size = 0; di_type = 0 })
        (record s { ino_bitmap = set_bitmap s.ino_bitmap ino }) in
    let blk = t.img dir.blk in
    let entry = update (update blk dir.at (ino % 256)) (dir.at + 1) (ino / 256 % 256) in
    let u = record t { img = update t.img dir.blk (strncpy entry (dir.at + 2) names fname 14) } in
    and_then (write_file ino content u) (λ r v. ok (pos 0) v)

with_entry : Bytes → ℕ → Option (List Chunk) → ℤ × Option Place → Image → Res Image ℤ
unfolding with_inode
with_entry names fname content (negsuc n, dir) s = ok (negsuc 0) s
with_entry names fname content (pos n, none) s = fault
with_entry names fname content (pos n, some dir) s =
    with_inode names fname content dir (get_free_no s.ino_bitmap) s

-- Only a `walk_path` of -1, a name that is not there, goes on; none is fuel that ran out.
if_absent : Bytes → ℕ → Option (List Chunk) → Option ℤ → Image → Res Image (Option ℤ)
unfolding with_entry
if_absent names fname content none s = ok none s
if_absent names fname content (some (pos n)) s = ok (some (negsuc 0)) s
if_absent names fname content (some (negsuc (suc n))) s = ok (some (negsuc 0)) s
if_absent names fname content (some (negsuc zero)) s =
    and_then (alloc_file s)
      (λ dir t. and_then (with_entry names fname content dir t) (λ r u. ok (some r) u))

pub create_file_image : (fuel : ℕ) → Bytes → ℕ → Option (List Chunk) → Image → Res Image (Option ℤ)
unfolding if_absent
create_file_image fuel names fname content s =
    and_then (walk_path fuel names fname s) (λ r t. if_absent names fname content r t)
