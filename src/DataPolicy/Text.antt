-- ===== src/DataPolicy/Text.antt =====
-- src/data_policy.rs: `FromStr` and `Display` of `DeliveryPolicy`, over code points.
-- `to_lowercase` is the ASCII part of the source's: no other character has a lower case that is
-- made of letters of the five words alone.
use Prim.Native.Char.{code}
use Prim.Native.String.{String}
use rtsc.Prelude.{
  ℕ, ◌+◌, ◌≡◌, refl, ◌≢◌, ◌↔◌, Bool, true, false, ◌&&◌, List, [], ◌∷◌, map, arith, leb, ◌==◌,
  if◌then◌else◌,
}
use rtsc.Error.{Result, ok, err, invalid_data}
use rtsc.DataPolicy.{DeliveryPolicy, always, latest, optional, single, single_optional}

abbrev pub codes : String → List ℕ
codes String.[] = []
codes (String.◌∷◌ c s) = code c ∷ codes s

unfoldable pub to_lowercase : List ℕ → List ℕ
to_lowercase = map (λ c. if leb b'A' c && leb c b'Z' then c + 32 else c)

unfoldable pub same_text : List ℕ → List ℕ → Bool
same_text [] [] = true
same_text (a ∷ s) (b ∷ t) = a == b && same_text s t
same_text _ _ = false

pub same_text_iff : (s t : List ℕ) → (same_text s t ≡ true) ↔ (s ≡ t)
unfolding same_text
same_text_iff [] [] = ((λ _. refl), λ _. refl)
same_text_iff [] (b ∷ t) = ((λ h. cc), λ h. cc)
same_text_iff (a ∷ s) [] = ((λ h. cc), λ h. cc)
same_text_iff (a ∷ s) (b ∷ t) = ground (arith, same_text_iff s t)

unfoldable pub display : DeliveryPolicy → String
display always = "always"
display latest = "latest"
display optional = "optional"
display single = "single"
display single_optional = "single-optional"

pub from_str : String → Result DeliveryPolicy
from_str s =
    let lower = to_lowercase (codes s) in
    if same_text lower (codes "always")
    then ok always
    else if same_text lower (codes "optional")
    then ok optional
    else if same_text lower (codes "single")
    then ok single
    else if same_text lower (codes "single-optional")
    then ok single_optional
    else err (invalid_data s)

same_text_lem :
    (s t : String)
    → same_text (to_lowercase (codes s)) (codes t) ≡ true
    → to_lowercase (codes s) ≡ codes t
same_text_lem s t = (same_text_iff (to_lowercase (codes s)) (codes t)).0

from_str_sound :
    (s : String) (p : DeliveryPolicy)
    → from_str s ≡ ok p
    → (to_lowercase (codes s) ≡ codes (display p)) × (p ≢ latest)
unfolding from_str display
from_str_sound s always h = (same_text_lem s "always" (ground arith), λ e. cc)
from_str_sound s latest h = absurd (ground arith)
from_str_sound s optional h = (same_text_lem s "optional" (ground arith), λ e. cc)
from_str_sound s single h = (same_text_lem s "single" (ground arith), λ e. cc)
from_str_sound s single_optional h = (same_text_lem s "single-optional" (ground arith), λ e. cc)

from_str_complete :
    (s : String) (p : DeliveryPolicy)
    → to_lowercase (codes s) ≡ codes (display p)
    → p ≢ latest
    → from_str s ≡ ok p
unfolding from_str display same_text
from_str_complete s always e h = rw e
from_str_complete s latest e h = absurd (h refl)
from_str_complete s optional e h = rw e
from_str_complete s single e h = rw e
from_str_complete s single_optional e h = rw e

-- A text is read as a policy exactly when it is, up to the case of its letters, the text that the
-- policy is displayed as, and the policy is not `latest`, which no text is read as.
pub from_str_iff :
    (s : String) (p : DeliveryPolicy)
    → (from_str s ≡ ok p) ↔ ((to_lowercase (codes s) ≡ codes (display p)) × (p ≢ latest))
from_str_iff s p = (from_str_sound s p, λ h. from_str_complete s p h.0 h.1)
