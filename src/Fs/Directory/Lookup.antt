-- ===== src/Fs/Directory/Lookup.antt =====
-- The search for a name in the root directory.
use myos_git.Prelude.{
  ℕ, ◌+◌, ◌*◌, ◌<◌, ◌≤◌, ◌≡◌, refl, inl, inr, Option, none, some, List, [], ◌∷◌, arith,
  if◌then◌else◌, length, Bool-cases,
}
use myos_git.Prelude.Int.{pos, negsuc}
use myos_git.Klib.{Bytes, strcmp}
use myos_git.Klib.Compare.{IsString, same, strcmp_lem}
use myos_git.Prelude.Result.{Res, ok, fault}
use myos_git.Fs.State.{Fs}
use myos_git.Fs.Directory.{Search, found, ended, compared, search_block, Answer}

-- A directory's entries, each an inode number and a name.
abbrev pub Entry : Type 0
Entry = ℕ × List ℕ

-- The entries stand in the buffer from `p` on, each name ending in NUL.
abbrev pub IsEntries : Bytes → ℕ → List Entry → Type 0
IsEntries buf p [] = Unit
IsEntries buf p ((ino, name) ∷ es) =
    (buf p + 256 * buf (p + 1) ≡ ino) × IsString buf (p + 2) name × IsEntries buf (p + 16) es

-- The names are shorter than the array for them.
abbrev pub AreShort : List Entry → Type 0
AreShort [] = Unit
AreShort ((ino, name) ∷ es) = (length name < 14) × AreShort es

-- The inode of the first entry of a name.
abbrev pub first_named : List Entry → List ℕ → Option ℕ
first_named [] fname = none
first_named ((ino, name) ∷ es) fname = if same name fname then some ino else first_named es fname

abbrev pub to_search : Option ℕ → Search
to_search none = ended
to_search (some ino) = found ino

-- What `walk_path` returns; none is a fault.
abbrev pub answer : Res Fs Answer → Answer
answer (ok a s) = a
answer fault = none

abbrev pub found_or_not : Option ℕ → Answer
found_or_not none = some (negsuc 0, none)
found_or_not (some ino) = some (pos 0, some ino)

module _ (fuel : ℕ) (enough : 14 ≤ fuel) (names : Bytes) (fname : ℕ) (xs : List ℕ)
    (str : IsString names fname xs) where
  -- The `while` over the entries finds the first entry of the name.
  pub search_block-first_named :
      (buf : Bytes) (p : ℕ) (es : List Entry)
      → IsEntries buf p es
      → AreShort es
      → search_block fuel names buf fname p (length es) ≡ to_search (first_named es xs)
  unfolding search_block compared
  search_block-first_named buf p [] h short = refl
  search_block-first_named buf p ((ino, name) ∷ es) (num, str2, h) (lt, short) =
      let it : strcmp fuel buf (p + 2) names fname ≡ some (if same name xs then pos 0 else pos 1) =
        strcmp_lem fuel buf (p + 2) names fname name xs str2 str (omega arith) in
      elim (Bool-cases (same name xs)) [
        | inl equal ↦ rw (it, equal, num)
        | inr differ ↦ rw (it, differ) (search_block-first_named buf (p + 16) es h short)
      ]
