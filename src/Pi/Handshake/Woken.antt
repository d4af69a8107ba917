-- ===== src/Pi/Handshake/Woken.antt =====
-- src/pi.rs: whom the futex of a condition variable wakes, counted.
use rtsc.Prelude.{
  ℕ, ◌+◌, ◌≤◌, ◌≡◌, ◌==◌, refl, Bool, true, false, some, List, [], ◌∷◌, count, arith,
}
use rtsc.BaseChannel.Tasks.{Picks-count}
use rtsc.Pi.Handshake.{
  deciding, registered, releasing, asleep, awake, Call, waits, notifies, Wakes, nobody, one_more,
}

abbrev pub is_deciding : Call → Bool
is_deciding (waits _ deciding) = true
is_deciding _ = false

-- The waits that the counter counts.
abbrev pub is_counted : Call → Bool
is_counted (waits _ registered) = true
is_counted (waits _ releasing) = true
is_counted (waits _ asleep) = true
is_counted (waits _ awake) = true
is_counted _ = false

-- The waits that sleep, or will.
abbrev pub may_sleep : Call → Bool
may_sleep (waits _ deciding) = true
may_sleep (waits _ registered) = true
may_sleep (waits _ releasing) = true
may_sleep (waits _ asleep) = true
may_sleep _ = false

abbrev pub is_notifying : Call → Bool
is_notifying (notifies _ _) = true
is_notifying _ = false

abbrev pub has_loaded : ℕ → Call → Bool
has_loaded n (notifies _ (some m)) = m == n
has_loaded _ _ = false

-- A count that does not tell waits that sleep from those that were woken.
pub Wakes-count :
    (test : Call → Bool) {n : ℕ} {calls left : List Call}
    → ((t : ℕ) → test (waits t awake) ≡ test (waits t asleep))
    → Wakes n calls left
    → count test left ≡ count test calls
Wakes-count test same (nobody calls) = refl
Wakes-count test same (one_more n t w p) =
    ground (arith, same t, Picks-count test p, Wakes-count test same w)

-- Each thread that is woken may not sleep any more.
pub Wakes-may_sleep :
    {n : ℕ} {calls left : List Call}
    → Wakes n calls left
    → count may_sleep left + n ≡ count may_sleep calls
Wakes-may_sleep (nobody calls) = omega arith
Wakes-may_sleep (one_more n t w p) = omega (arith, Picks-count may_sleep p, Wakes-may_sleep w)

-- Tests that imply one another.
pub count-le :
    (f g : Call → Bool) (calls : List Call)
    → ((c : Call) → f c ≡ true → g c ≡ true)
    → count f calls ≤ count g calls
count-le f g [] h = omega arith
count-le f g (c ∷ calls) h = ground (arith, h c, count-le f g calls h)
