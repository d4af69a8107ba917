-- ===== src/Tests/HostTests.antt =====
-- The theorem on settings of the system, with a file for each number.
use Prim.Native.String.{String}
use rtsc.Prelude.{
  ℕ, ◌≡◌, refl, sym, ap, ◌∙◌, List, [], ◌∷◌, arith, ◌==◌, true, false, if◌then◌else◌,
}
use rtsc.Error.{ok}
use rtsc.EventMap.{map_insert, map_get}
use rtsc.HostSystem.{FileSystem, SystemConfig, new, set, apply_from, apply, restore, drop_config}
use rtsc.HostSystem.Restored.{FileLaws, drop-apply}

abbrev Files : Type 0
Files = ℕ → String

abbrev files : FileSystem ℕ Files
files = record {
  read_to_string = λ x fs. ok (fs x);
  write = λ x s fs. (ok tt, λ y. if y == x then s else fs y);
}

files-laws : FileLaws files
files-laws = record {
  write_back = λ x s before now after read written.
      let same : (x == x) ≡ true = ground arith in
      sym (ap (λ r. ok (r.1 x)) written) ∙ rw same refl;
  other_kept = λ x y s fs ne. let other : (y == x) ≡ false = ground arith in rw other refl;
}

abbrev before : Files
before x = "950000"

abbrev runtime : List (ℕ × String)
runtime = (1, "-1") ∷ []

abbrev saved : SystemConfig
saved = record { values = runtime; prev_values = (1, "950000") ∷ [] }

abbrev during : Files
during y = if y == 1 then "-1" else before y

-- Somebody else writes another parameter before the guard is dropped.
abbrev later : Files
later y = if y == 2 then "7" else during y

abbrev after : Files
after y = if y == 1 then "950000" else later y

drop-apply_example : files.read_to_string 1 after ≡ files.read_to_string 1 before
unfolding apply apply_from drop_config restore new set map_insert map_get
drop-apply_example =
    drop-apply files (λ key. key) files-laws (λ i j e. e) runtime saved before during later after 1
      refl refl (λ e. cc)
