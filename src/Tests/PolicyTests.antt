-- ===== src/Tests/PolicyTests.antt =====
-- The text form of the policies, on a text in mixed case.
use rtsc.Prelude.{◌≡◌, ◌≢◌, ◌↔◌}
use rtsc.Error.{ok}
use rtsc.DataPolicy.{latest, single_optional}
use rtsc.DataPolicy.Text.{codes, to_lowercase, display, from_str, from_str_iff}

from_str_iff_example : (from_str "Single-OPTIONAL" ≡ ok single_optional) ↔ (
    (to_lowercase (codes "Single-OPTIONAL") ≡ codes (display single_optional))
    × (single_optional ≢ latest))
from_str_iff_example = from_str_iff "Single-OPTIONAL" single_optional
