-- ===== src/Console/Keyboard/Fifo.antt =====
-- The ring buffer is a queue.
use myos_git.Prelude.{
  ℕ, zero, suc, ◌+◌, ◌-◌, ◌%◌, ◌<◌, ◌≤◌, ◌≡◌, refl, sym, ap, ◌∙◌, inl, inr, false, Option, none,
  some, List, [], ◌∷◌, ◌++◌, arith, ◌==◌, update, Bool-cases,
}
use myos_git.Klib.{Bytes}
use myos_git.Console.Keyboard.{Kbs, get_kbdata, add_kbdata}

pub record IsRing (k : Kbs) : Type 0 where
  pub read : k.rpos < 1024
  pub write : k.wpos < 1024

-- How many bytes wait to be read.
abbrev pub pending : Kbs → ℕ
pending k = (k.wpos + 1024 - k.rpos) % 1024

run : Bytes → ℕ → ℕ → List ℕ
run buf r zero = []
run buf r (suc n) = buf r ∷ run buf ((r + 1) % 1024) n

-- The bytes that wait, in the order in which they will be read.
unfoldable pub contents : Kbs → List ℕ
unfolding run
contents k = run k.buf k.rpos (pending k)

run-update :
    (buf : Bytes) (w d r n : ℕ)
    → r < 1024
    → w < 1024
    → n ≤ (w + 1024 - r) % 1024
    → run (update buf w d) r n ≡ run buf r n
unfolding run
run-update buf w d r zero hr hw far = refl
run-update buf w d r (suc n) hr hw far =
    let here : (w == r) ≡ false = ground arith in
    let bound : (r + 1) % 1024 < 1024 = omega arith in
    let rest : n ≤ (w + 1024 - (r + 1) % 1024) % 1024 = omega arith in
    rw here (ap (λ l. buf r ∷ l) (run-update buf w d ((r + 1) % 1024) n bound hw rest))

run-snoc :
    (buf : Bytes) (r n : ℕ)
    → r < 1024
    → run buf r (suc n) ≡ run buf r n ++ buf ((r + n) % 1024) ∷ []
unfolding run
run-snoc buf r zero hr = let e : r ≡ (r + 0) % 1024 = omega arith in ap (λ a. buf a ∷ []) e
run-snoc buf r (suc n) hr =
    let e : ((r + 1) % 1024 + n) % 1024 ≡ (r + suc n) % 1024 = omega arith in
    ap (λ l. buf r ∷ l)
      (run-snoc buf ((r + 1) % 1024) n (omega arith)
        ∙ ap (λ a. run buf ((r + 1) % 1024) n ++ buf a ∷ []) e)

pub add_kbdata-IsRing : (k : Kbs) (d : ℕ) → IsRing k → IsRing (add_kbdata d k)
unfolding add_kbdata
add_kbdata-IsRing k d h = omega arith

-- A byte that is added while fewer than 1023 wait goes to the end of the queue.
pub contents-add_kbdata :
    (k : Kbs) (d : ℕ)
    → IsRing k
    → pending k < 1023
    → (contents (add_kbdata d k) ≡ contents k ++ d ∷ []) × IsRing (add_kbdata d k)
unfolding contents add_kbdata
contents-add_kbdata k d h room =
    let buf' = update k.buf k.wpos d in
    let more : ((k.wpos + 1) % 1024 + 1024 - k.rpos) % 1024 ≡ suc (pending k) = omega arith in
    let last : (k.rpos + pending k) % 1024 ≡ k.wpos = omega arith in
    let hit : buf' k.wpos ≡ d = ground arith in
    (
      ap (run buf' k.rpos) more
          ∙ run-snoc buf' k.rpos (pending k) h.read
          ∙ ap (λ l. l ++ buf' ((k.rpos + pending k) % 1024) ∷ [])
              (run-update k.buf k.wpos d k.rpos (pending k) h.read h.write (omega arith))
          ∙ ap (λ a. contents k ++ buf' a ∷ []) last
          ∙ ap (λ b. contents k ++ b ∷ []) hit,
      omega arith,
    )

-- A byte that is added while 1023 wait, the most that the ring can hold, loses them all, and
-- itself: the buffer then reads as empty.
pub contents-add_kbdata_full :
    (k : Kbs) (d : ℕ) → IsRing k → pending k ≡ 1023 → contents (add_kbdata d k) ≡ []
unfolding contents add_kbdata
contents-add_kbdata_full k d h full =
    let none_left : ((k.wpos + 1) % 1024 + 1024 - k.rpos) % 1024 ≡ 0 = omega arith in
    ap (run (update k.buf k.wpos d) k.rpos) none_left

-- Reading takes the first byte of the queue, and none from an empty one.
abbrev pub dequeued : List ℕ → Option ℕ × List ℕ
dequeued [] = (none, [])
dequeued (x ∷ xs) = (some x, xs)

abbrev pub read_out : Option ℕ × Kbs → Option ℕ × List ℕ
read_out (r, k) = (r, contents k)

-- `get_kbdata` takes the first byte of the queue, or returns -1 for an empty one, and keeps the ring's
-- positions in range.
pub contents-get_kbdata :
    (k : Kbs)
    → IsRing k
    → (read_out (get_kbdata k) ≡ dequeued (contents k)) × IsRing (get_kbdata k).1
unfolding contents get_kbdata
contents-get_kbdata k h = elim (Bool-cases (k.rpos == k.wpos)) [
  | inl same ↦
      let none_left : pending k ≡ 0 = ground arith in
      let c : contents k ≡ [] = ap (run k.buf k.rpos) none_left in
      rw same (ap (λ l. (none, l)) c ∙ sym (ap dequeued c), h)
  | inr other ↦
      let more : pending k ≡ suc ((k.wpos + 1024 - (k.rpos + 1) % 1024) % 1024) = ground arith in
      rw other (sym (ap dequeued (ap (run k.buf k.rpos) more)), omega arith)
]
