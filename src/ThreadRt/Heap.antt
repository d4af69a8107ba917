-- ===== src/ThreadRt/Heap.antt =====
-- src/thread_rt/linux_gnu.rs: `prealloc_heap`.
use native.Mathlib.Nat.{suc-mul}
use rtsc.Prelude.{
  ℕ, zero, suc, ◌+◌, ◌*◌, ◌≤◌, ◌<◌, ◌≡◌, refl, Bool, true, false, Bool-cases, inl, inr, Option,
  none, some, List, [], ◌∷◌, All, any, ltb, leb, ◌&&◌, not, ◌==◌, arith, if◌then◌else◌,
}
use rtsc.Error.{Error, access_denied, failed, Result, ok, err}

-- The calls: whether `mallopt` and `mlockall` succeed, and the page size, `none` where it is no
-- `usize`.
pub record HeapCalls (O : Type 0) : Type 0 where
  pub getuid : ℕ
  pub mallopt_mmap_max : O → Bool × O
  pub mallopt_trim_threshold : O → Bool × O
  pub mlockall : O → Bool × O
  pub page_size : Option ℕ

-- `(i..size).step_by(page_size)`: the positions that are written. There are not more than `fuel`.
unfoldable pub step_by : (fuel i size page_size : ℕ) → List ℕ
step_by zero i size page_size = []
step_by (suc fuel) i size page_size =
    let rest = step_by fuel (i + page_size) size page_size in if ltb i size then i ∷ rest else []

-- The pages are touched; `none` is a panic, for a page size that is no `usize`, or zero.
unfoldable pub touch : Option ℕ → ℕ → Option (Result (Unit {0}) × List ℕ)
touch none size = none
touch (some page_size) size =
    if page_size == 0 then none else some (ok tt, step_by size 0 size page_size)

module _ {O : Type 0} (sys : HeapCalls O) where
  abbrev pub fails : Error → Option (Result (Unit {0}) × List ℕ)
  fails e = some (err e, [])

  -- The result, the positions of the new vector that are written, and the state.
  unfoldable pub prealloc_heap : ℕ → O → Option (Result (Unit {0}) × List ℕ) × O
  prealloc_heap size o =
      let (mmap_off, o1) = sys.mallopt_mmap_max o in
      let (trim_off, o2) = sys.mallopt_trim_threshold o1 in
      let (locked, o3) = sys.mlockall o2 in
      if size == 0
      then (some (ok tt, []), o)
      else if not (sys.getuid == 0)
      then (fails access_denied, o)
      else if not mmap_off
      then (fails (failed "unable to disable mmap for allocation of large mem regions"), o1)
      else if not trim_off
      then (fails (failed "unable to disable trimming"), o2)
      else if not locked
      then (fails (failed "unable to lock memory pages"), o3)
      else (touch sys.page_size size, o3)

step_by-below : (fuel i size page_size : ℕ) → All (λ j. j < size) (step_by fuel i size page_size)
unfolding step_by
step_by-below zero i size page_size = tt
step_by-below (suc fuel) i size page_size = elim (Bool-cases (ltb i size)) [
  | inl e ↦ rw e (ground arith, step_by-below fuel (i + page_size) size page_size)
  | inr e ↦ rw e tt
]

-- Whether a write lands in the page `n` of the memory, where the page 0 is that in which the vector
-- begins, `offset` after the start of the page.
abbrev pub touches_page : (offset page_size n : ℕ) → List ℕ → Bool
touches_page offset page_size n =
    any (λ i. leb (n * page_size) (offset + i) && ltb (offset + i) (n * page_size + page_size))

-- The page that begins at `b`, `n` pages after `a`, where the next write is `a` far in the vector.
step_by-page :
    (fuel a size page_size offset n b : ℕ)
    → offset < page_size
    → size ≤ a + fuel
    → b ≡ a + n * page_size
    → any
        (λ i. leb b (offset + i) && ltb (offset + i) (b + page_size))
        (step_by fuel a size page_size)
      ≡ ltb b size
unfolding step_by
step_by-page zero a size page_size offset n b inside enough at = ground arith
step_by-page (suc fuel) a size page_size offset zero b inside enough at =
    elim (Bool-cases (ltb a size)) [ inl e ↦ rw e (ground arith) | inr e ↦ rw e (ground arith) ]
step_by-page (suc fuel) a size page_size offset (suc n) b inside enough at =
    let next : b ≡ a + page_size + n * page_size = omega (arith, at, suc-mul n page_size) in
    elim (Bool-cases (ltb a size)) [
      | inl e ↦ rw e (
          ground (
            arith,
            step_by-page fuel (a + page_size) size page_size offset n b inside (omega arith) next,
          ))
      | inr e ↦ rw e (ground arith)
    ]

-- The state after all calls.
abbrev pub prepared : {O : Type 0} → HeapCalls O → O → Bool × O
prepared sys o = sys.mlockall (sys.mallopt_trim_threshold (sys.mallopt_mmap_max o).1).1

-- For root, where the calls succeed and pages have a size, `prealloc_heap` succeeds, and each position
-- that it writes lies in the vector. Let the vector begin `offset` after the start of a page. Of this
-- page and those after it, a page is written exactly if its number, from 0 on, times the size of a
-- page is below the size of the vector. So the last page of the vector is left untouched where the
-- vector reaches into it by no more than `offset`.
pub prealloc_heap_lem :
    {O : Type 0} (sys : HeapCalls O) (size : ℕ) (o : O) (page_size offset : ℕ)
    → sys.getuid ≡ 0
    → (sys.mallopt_mmap_max o).0 ≡ true
    → (sys.mallopt_trim_threshold (sys.mallopt_mmap_max o).1).0 ≡ true
    → (prepared sys o).0 ≡ true
    → sys.page_size ≡ some page_size
    → offset < page_size
    → 0 < size
    → (written : List ℕ) × (prealloc_heap sys size o ≡ (some (ok tt, written), (prepared sys o).1))
      × All (λ i. i < size) written
      × ((n : ℕ) → touches_page offset page_size n written ≡ ltb (n * page_size) size)
unfolding prealloc_heap touch
prealloc_heap_lem sys size o page_size offset root mmap trim locked pages inside some_size =
    let has_size : (size == 0) ≡ false = ground arith in
    let has_pages : (page_size == 0) ≡ false = ground arith in
    (
      step_by size 0 size page_size,
      rw (has_size, root, mmap, trim, locked, pages, has_pages) refl,
      step_by-below size 0 size page_size,
      λ n.
          step_by-page size 0 size page_size offset n (n * page_size) inside (omega arith)
            (omega arith),
    )
