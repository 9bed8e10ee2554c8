-- ===== src/Mm/State.antt =====
-- The state of kernel/mm.c and the commands over it. `fault` is a use of NULL as a page's address.
pub use myos_git.Prelude.Result.{
  Res, ok, fault, and_then, ◌>>=◌, Returns, returns, Returns-and_then, Returns-map, and_then_assoc,
}
use myos_git.Prelude.{ℕ, Option, List, update}
use myos_git.Prelude.Int.{ℤ}

-- `struct page`.
pub record Page : Type 0 where
  pub link : Option ℕ
  pub count : ℤ

-- `phead`, `pages`, the physical memory as 64-bit words by frame and index, and the addresses that
-- `invlpg` was given, the last one first.
pub record Mm : Type 0 where
  pub phead : Option ℕ
  pub pages : ℕ → Page
  pub mem : ℕ → ℕ → ℕ
  pub flushed : List ℕ

abbrev pub Run {ℓ} : Type ℓ → Type ℓ
Run A = Res Mm A

abbrev pub set_word : ℕ → ℕ → ℕ → Mm → Mm
set_word table i w s = record s { mem = update s.mem table (update (s.mem table) i w) }
