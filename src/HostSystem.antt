-- ===== src/HostSystem.antt =====
-- src/system.rs: parameters of the running system, set for a while.
-- Files are those of a `FileSystem`, and a `BTreeMap` is its list of entries, as in EventMap. The keys
-- of parameters are numbered in the order of their texts; `path` is the file of a key or of a CPU.
pub mod Restored
use Prim.Native.String.{String}
use rtsc.Prelude.{ℕ, ◌+◌, Bool, true, false, Option, none, some, List, [], ◌∷◌, ◌==◌, if◌then◌else◌}
use rtsc.Error.{Error, Result, ok, err}
use rtsc.DataPolicy.Text.{codes, same_text}
use rtsc.EventMap.{map_insert}

-- `fs::read_to_string` and `fs::write`. `P` are the paths, `Fs` the states of the files.
pub record FileSystem (P Fs : Type 0) : Type 0 where
  pub read_to_string : P → Fs → Result String
  pub write : P → String → Fs → Result (Unit {0}) × Fs

pub record SystemConfig : Type 0 where
  pub values : List (ℕ × String)
  pub prev_values : List (ℕ × String)

unfoldable pub new : SystemConfig
new = record { values = []; prev_values = [] }

unfoldable pub set : SystemConfig → ℕ → String → SystemConfig
set c key value = record c { values = map_insert key value c.values }

-- `line.split(':').next()`.
unfoldable pub before_colon : List ℕ → List ℕ
before_colon [] = []
before_colon (c ∷ cs) = let rest = before_colon cs in if c == b':' then [] else c ∷ rest

-- The lines of /proc/cpuinfo, as they are read; `trim_end` is that of the standard library.
unfoldable pub num_cpus : (List ℕ → List ℕ) → List (Result (List ℕ)) → Result ℕ
num_cpus trim_end [] = ok 0
num_cpus trim_end (err e ∷ lines) = err e
num_cpus trim_end (ok line ∷ lines) = elim (num_cpus trim_end lines) [
  | err e ↦ err e
  | ok n ↦ ok (if same_text (trim_end (before_colon line)) (codes "processor") then n + 1 else n)
]

module _ {P Fs : Type 0} (files : FileSystem P Fs) (path : ℕ → P) where
  -- The loop of `apply`, over the entries of `values`.
  unfoldable pub apply_from : List (ℕ × String) → SystemConfig → Fs → Result SystemConfig × Fs
  apply_from [] c fs = (ok c, fs)
  apply_from ((key, value) ∷ rest) c fs = elim (files.read_to_string (path key) fs) [
    | err e ↦ (err e, fs)
    | ok prev_value ↦
        let (written, left) = files.write (path key) value fs in
        elim written [
          | err e ↦ (err e, left)
          | ok _ ↦
              apply_from rest (record c { prev_values = map_insert key prev_value c.prev_values })
                left
        ]
  ]

  unfoldable pub apply : SystemConfig → Fs → Result SystemConfig × Fs
  apply c fs = apply_from c.values c fs

  -- The loop of both `drop`s: the keys for which it warns.
  unfoldable pub restore : List (ℕ × String) → Fs → List ℕ × Fs
  restore [] fs = ([], fs)
  restore ((key, value) ∷ rest) fs =
      let (written, left) = files.write (path key) value fs in
      let (warned, after) = restore rest left in
      elim written [ err e ↦ (key ∷ warned, after) | ok _ ↦ (warned, after) ]

  unfoldable pub drop_config : SystemConfig → Fs → List ℕ × Fs
  drop_config c fs = restore c.prev_values fs

  -- The loops of `performance`.
  unfoldable pub read_governors :
      (trim : String → String) → List ℕ → List (ℕ × String) → Fs → Result (List (ℕ × String))
  read_governors trim [] prev fs = ok prev
  read_governors trim (cpu ∷ cpus) prev fs = elim (files.read_to_string (path cpu) fs) [
    | err e ↦ err e
    | ok prev_value ↦ read_governors trim cpus (map_insert cpu (trim prev_value) prev) fs
  ]

  unfoldable pub set_performance : List (ℕ × String) → Fs → Result (Unit {0}) × Fs
  set_performance [] fs = (ok tt, fs)
  set_performance ((cpu, governor) ∷ rest) fs =
      let (written, left) = files.write (path cpu) "performance" fs in
      elim written [ err e ↦ (err e, left) | ok _ ↦ set_performance rest left ]

  unfoldable pub performance :
      (trim : String → String) → List ℕ → Fs → Result (List (ℕ × String)) × Fs
  performance trim cpus fs = elim (read_governors trim cpus [] fs) [
    | err e ↦ (err e, fs)
    | ok prev_governor ↦
        let (all_set, left) = set_performance prev_governor fs in
        elim all_set [ err e ↦ (err e, left) | ok _ ↦ (ok prev_governor, left) ]
  ]
