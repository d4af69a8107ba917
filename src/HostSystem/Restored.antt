-- ===== src/HostSystem/Restored.antt =====
-- src/system.rs: what is restored when a guard is dropped.
use Prim.Native.String.{String}
use mathlib.Core.Option.{some-injective}
use rtsc.Prelude.{
  ℕ, ◌<◌, ◌≡◌, ◌≢◌, ◌⊎◌, inl, inr, refl, sym, ap, ◌∙◌, false, none, some, List, [], ◌∷◌, All, arith,
  ◌==◌, Bool-cases, Option-cases,
}
use rtsc.Error.{Error, Result, ok, err}
use rtsc.EventMap.{map_insert, map_get}
use rtsc.EventMap.Keys.{IsSorted, map_get-above, map_insert-IsSorted, map_get-map_insert}
use rtsc.HostSystem.{FileSystem, SystemConfig, new, set, apply_from, apply, restore, drop_config}

-- A parameter takes back a text that was read from it, and then reads so again; a write changes one
-- file.
pub record FileLaws {P Fs : Type 0} (files : FileSystem P Fs) : Type 0 where
  pub write_back :
      (x : P) (s : String) (before now after : Fs)
      → files.read_to_string x before ≡ ok s
      → files.write x s now ≡ (ok tt, after)
      → files.read_to_string x after ≡ ok s
  pub other_kept :
      (x y : P) (s : String) (fs : Fs)
      → x ≢ y
      → files.read_to_string y (files.write x s fs).1 ≡ files.read_to_string y fs

Result-cases : {A : Type 0} (r : Result A) → ((a : A) × (r ≡ ok a)) ⊎ ((e : Error) × (r ≡ err e))
Result-cases (ok a) = inl (a, refl)
Result-cases (err e) = inr (e, refl)

module _ {P Fs : Type 0} (files : FileSystem P Fs) (laws : FileLaws files) (path : ℕ → P)
    (path_injective : (i j : ℕ) → path i ≡ path j → i ≡ j) where
  -- The previous values, where there are any, are those of the state `origin`.
  record Saved (origin : Fs) (prev : List (ℕ × String)) : Type 0 where
    pub sorted : IsSorted prev
    pub right :
        (k : ℕ) (s : String) → map_get k prev ≡ some s → files.read_to_string (path k) origin ≡ ok s

  -- The keys of a map whose parameters are still as they were.
  abbrev Unchanged : Fs → Fs → List (ℕ × String) → Type 0
  Unchanged origin fs es =
      All (λ e. files.read_to_string (path e.0) fs ≡ files.read_to_string (path e.0) origin) es

  write-Unchanged :
      (origin fs : Fs) (key : ℕ) (value : String) (es : List (ℕ × String))
      → All (λ e. key < e.0) es
      → Unchanged origin fs es
      → Unchanged origin (files.write (path key) value fs).1 es
  write-Unchanged origin fs key value [] above h = tt
  write-Unchanged origin fs key value (e ∷ es) above h = (
    laws.other_kept (path key) (path e.0) value fs
          (λ same. let same_key = path_injective key e.0 same in omega (arith, above.0))
        ∙ h.0,
    write-Unchanged origin fs key value es above.1 h.1,
  )

  insert-Saved :
      (origin : Fs) (prev : List (ℕ × String)) (key : ℕ) (value : String)
      → files.read_to_string (path key) origin ≡ ok value
      → Saved origin prev
      → Saved origin (map_insert key value prev)
  insert-Saved origin prev key value read h = record {
    sorted = map_insert-IsSorted key value prev h.sorted;
    right = λ k s found.
        let at_k = sym (map_get-map_insert key k value prev) ∙ found in
        elim (Bool-cases (k == key)) [
          | inl e ↦
              let same : k ≡ key = ground arith in
              let is_s : value ≡ s = some-injective _ _ (rw e at at_k) in rw (same, ← is_s) read
          | inr ne ↦ h.right k s (rw ne at at_k)
        ];
  }

  -- What `apply` has saved: each key that it went through is there.
  record Went (origin : Fs) (es before after : List (ℕ × String)) : Type 0 where
    pub saved : Saved origin after
    pub all : (k : ℕ) → map_get k after ≡ none → (map_get k before ≡ none) × (map_get k es ≡ none)

  apply_from-Went :
      (es : List (ℕ × String)) (c c' : SystemConfig) (origin fs fs' : Fs)
      → apply_from files path es c fs ≡ (ok c', fs')
      → IsSorted es
      → Unchanged origin fs es
      → Saved origin c.prev_values
      → Went origin es c.prev_values c'.prev_values
  unfolding apply_from map_get
  apply_from-Went [] c c' origin fs fs' e sorted same h =
      let is_c : ok c ≡ ok c' = ap (λ r. r.0) e in
      let is_prev : c.prev_values ≡ c'.prev_values = cc in
      record {
        saved = rw (← is_prev) h;
        all = λ k none_left. (ap (map_get k) is_prev ∙ none_left, refl);
      }
  apply_from-Went ((key, value) ∷ rest) c c' origin fs fs' e sorted same h =
      elim (Result-cases (files.read_to_string (path key) fs)) [
        | inr (error, read) ↦ absurd (let failed = ap (λ r. r.0) (rw (apply_from, read) at e) in cc)
        | inl (s, read) ↦ elim (Result-cases (files.write (path key) value fs).0) [
          | inr (error, written) ↦
              absurd (let failed = ap (λ r. r.0) (rw (apply_from, read, written) at e) in cc)
          | inl (_, written) ↦
              let next = record c { prev_values = map_insert key s c.prev_values } in
              let went =
                apply_from-Went rest next c' origin (files.write (path key) value fs).1 fs'
                  (rw (apply_from, read, written) at e) sorted.1
                  (write-Unchanged origin fs key value rest sorted.0 same.1)
                  (insert-Saved origin c.prev_values key s (sym same.0 ∙ read) h) in
              record {
                saved = went.saved;
                all = λ k none_left.
                    let (next_none, rest_none) = went.all k none_left in
                    let at_k = sym (map_get-map_insert key k s c.prev_values) ∙ next_none in
                    elim (Bool-cases (k == key)) [
                      | inl e ↦ absurd (let there = rw e at at_k in cc)
                      | inr ne ↦ (rw ne at at_k, rw ne rest_none)
                    ];
              }
        ]
      ]

  restore-others :
      (es : List (ℕ × String)) (key : ℕ) (fs : Fs)
      → All (λ e. key < e.0) es
      → files.read_to_string (path key) (restore files path es fs).1
        ≡ files.read_to_string (path key) fs
  unfolding restore
  restore-others [] key fs above = refl
  restore-others ((k, value) ∷ rest) key fs above =
      let left = (files.write (path k) value fs).1 in
      let kept =
        laws.other_kept (path k) (path key) value fs
          (λ same. let same_key = path_injective k key same in omega (arith, above.0)) in
      elim (Result-cases (files.write (path k) value fs).0) [
        | inl (_, written) ↦ rw (restore, written) (restore-others rest key left above.1 ∙ kept)
        | inr (e, written) ↦ rw (restore, written) (restore-others rest key left above.1 ∙ kept)
      ]

  rest-Saved :
      (origin : Fs) (key : ℕ) (value : String) (rest : List (ℕ × String))
      → Saved origin ((key, value) ∷ rest)
      → Saved origin rest
  unfolding map_get
  rest-Saved origin key value rest h = record {
    sorted = h.sorted.1;
    right = λ k s found.
        let above = map_get-above key k s rest h.sorted.0 found in
        let other : (k == key) ≡ false = ground arith in h.right k s (rw other found);
  }

  restore-reads :
      (es : List (ℕ × String)) (origin fs fs' : Fs) (k : ℕ) (s : String)
      → restore files path es fs ≡ ([], fs')
      → Saved origin es
      → map_get k es ≡ some s
      → files.read_to_string (path k) fs' ≡ ok s
  unfolding restore map_get
  restore-reads [] origin fs fs' k s quiet h found = absurd cc
  restore-reads ((key, value) ∷ rest) origin fs fs' k s quiet h found =
      let left = (files.write (path key) value fs).1 in
      elim (Result-cases (files.write (path key) value fs).0) [
        | inr (e, written) ↦
            absurd (let warned = ap (λ r. r.0) (rw (restore, written) at quiet) in cc)
        | inl (_, written) ↦
            let rest_quiet = rw (restore, written) at quiet in
            elim (Bool-cases (k == key)) [
              | inl e ↦
                  let same : k ≡ key = ground arith in
                  let is_s : value ≡ s = some-injective _ _ (rw e at found) in
                  let was : files.read_to_string (path key) origin ≡ ok value =
                    rw (← same, is_s) (h.right k s found) in
                  let back =
                    laws.write_back (path key) value origin fs left was
                      (ap (λ r. (r, left)) written) in
                  let untouched = restore-others rest key left h.sorted.0 in
                  rw (same, ← is_s)
                    (sym (ap (λ r. files.read_to_string (path key) r.1) rest_quiet)
                      ∙ untouched
                      ∙ back)
              | inr ne ↦
                  restore-reads rest origin left fs' k s rest_quiet
                    (rest-Saved origin key value rest h) (rw ne at found)
            ]
      ]

-- A configuration for which `set` was called with these entries, the first of them last.
abbrev pub configured : List (ℕ × String) → SystemConfig
configured [] = new
configured ((key, value) ∷ entries) = set (configured entries) key value

configured-IsSorted :
    (entries : List (ℕ × String))
    → IsSorted (configured entries).values × ((configured entries).prev_values ≡ [])
unfolding new set
configured-IsSorted [] = (tt, refl)
configured-IsSorted ((key, value) ∷ entries) =
    let (sorted, unused) = configured-IsSorted entries in
    (map_insert-IsSorted key value (configured entries).values sorted, unused)

same_files :
    {P Fs : Type 0} (files : FileSystem P Fs) (path : ℕ → P) (fs : Fs) (es : List (ℕ × String))
    → All (λ e. files.read_to_string (path e.0) fs ≡ files.read_to_string (path e.0) fs) es
same_files files path fs [] = tt
same_files files path fs (e ∷ es) = (refl, same_files files path fs es)

-- Where `apply` succeeds from the files `fs`, and the guard is dropped later, whatever was written in
-- between, without a warning: each parameter that was set reads as it did before `apply`. This is so
-- over any files with the laws, where keys have files of their own.
pub drop-apply :
    {P Fs : Type 0} (files : FileSystem P Fs) (path : ℕ → P) (laws : FileLaws files)
    → ((i j : ℕ) → path i ≡ path j → i ≡ j)
    → (entries : List (ℕ × String)) (c : SystemConfig) (fs applied now after : Fs) (k : ℕ)
    → apply files path (configured entries) fs ≡ (ok c, applied)
    → drop_config files path c now ≡ ([], after)
    → map_get k (configured entries).values ≢ none
    → files.read_to_string (path k) after ≡ files.read_to_string (path k) fs
unfolding apply drop_config map_get
drop-apply files path laws path_injective entries c fs applied now after k e quiet is_set =
    let config = configured entries in
    let (sorted, unused) = configured-IsSorted entries in
    let went =
      apply_from-Went files laws path path_injective config.values config c fs fs applied e sorted
        (same_files files path fs config.values)
        (rw unused (record { sorted = tt; right = λ k s found. absurd cc })) in
    elim (Option-cases (map_get k c.prev_values)) [
      | inl missing ↦ absurd (is_set (went.all k missing).1)
      | inr (s, there) ↦
          restore-reads files laws path path_injective c.prev_values fs now after k s quiet
            went.saved there
          ∙ sym (went.saved.right k s there)
    ]
