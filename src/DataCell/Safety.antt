-- ===== src/DataCell/Safety.antt =====
-- src/cell/datacell.rs: gets that wait.
use rtsc.Prelude.{ℕ, ◌+◌, ◌≤◌, ◌<◌, ◌≡◌, refl, Bool, true, Option, none, some, arith}
use rtsc.DataCell.{close, set, replace, get_again, get_first, try_get}
use rtsc.DataCell.System.{
  System, deliver, run_first, run_again, run_set, run_replace, run_close, run_try_get, Step,
  call_get, call_get_timeout, runs_get, runs_get_timeout, goes_on, goes_on_timed, times_out,
  sets_value, replaces, closes, tries, Reach, start, later, initial,
}

module _ {P : Type 0} where
  abbrev pub holds : Option P → ℕ
  holds none = 0
  holds (some _) = 1

  -- While there is data, some `get` is about to run if any waits.
  record Awake (s : System P) : Type 0 where
    awake :
        0 < s.plain.waiting + s.timed.waiting
        → holds s.value.current ≤ s.plain.woken + s.timed.woken

  Step-Awake : {s u : System P} → Step s u → Awake s → Awake u
  unfolding run_first run_again run_set run_replace run_close run_try_get deliver get_first
      get_again set replace close try_get
  Step-Awake {s} call_get h = ground arith
  Step-Awake {s} call_get_timeout h = ground arith
  Step-Awake {s} (runs_get some_called) h = ground arith
  Step-Awake {s} (runs_get_timeout some_called) h = ground arith
  Step-Awake {s} (goes_on some_woken) h = ground arith
  Step-Awake {s} (goes_on_timed some_woken) h = ground arith
  Step-Awake {s} (times_out some_wait) h = ground arith
  Step-Awake {s} (sets_value b content) h = ground arith
  Step-Awake {s} (replaces b content) h = ground arith
  Step-Awake {s} (closes b) h = ground arith
  Step-Awake {s} tries h = ground arith

  Reach-Awake : {s u : System P} → Awake s → Reach s u → Awake u
  Reach-Awake h start = h
  Reach-Awake h (later r step) = Step-Awake step (Reach-Awake h r)

  -- The gets without a timeout that are past the test of `closed`.
  abbrev pub past_test : System P → ℕ
  past_test s = s.plain.woken + s.plain.waiting

  -- In a closed cell, these get no fewer unless they are given data.
  record Blocked (s u : System P) : Type 0 where
    shut : u.value.closed ≡ true
    left :
        past_test s + s.sets + holds u.value.current ≤ past_test u + u.sets + holds s.value.current

  Step-Blocked : {s u : System P} → Step s u → s.value.closed ≡ true → Blocked s u
  unfolding run_first run_again run_set run_replace run_close run_try_get deliver get_first
      get_again set replace close try_get
  Step-Blocked {s} call_get h = ground arith
  Step-Blocked {s} call_get_timeout h = ground arith
  Step-Blocked {s} (runs_get some_called) h = ground arith
  Step-Blocked {s} (runs_get_timeout some_called) h = ground arith
  Step-Blocked {s} (goes_on some_woken) h = ground arith
  Step-Blocked {s} (goes_on_timed some_woken) h = ground arith
  Step-Blocked {s} (times_out some_wait) h = ground arith
  Step-Blocked {s} (sets_value b content) h = ground arith
  Step-Blocked {s} (replaces b content) h = ground arith
  Step-Blocked {s} (closes b) h = ground arith
  Step-Blocked {s} tries h = ground arith

  Reach-Blocked : {s u : System P} → s.value.closed ≡ true → Reach s u → Blocked s u
  Reach-Blocked h start = record { shut = h; left = omega arith }
  Reach-Blocked h (later r step) =
      let before = Reach-Blocked h r in
      let after = Step-Blocked step before.shut in
      record { shut = after.shut; left = omega (arith, before.left, after.left) }

-- However the calls on a new cell interleave: if some `get` waits, with a timeout or without, and
-- none that was woken is about to run, then the cell holds no data.
pub no_stuck_get :
    {P : Type 0} (u : System P)
    → Reach initial u
    → 0 < u.plain.waiting + u.timed.waiting
    → u.plain.woken + u.timed.woken ≡ 0
    → u.value.current ≡ none
no_stuck_get u r asleep idle =
    ground
      (arith, (Reach-Awake (record { awake = λ some_wait. absurd (omega arith) }) r).awake asleep)

-- Closing an empty cell ends no `get` that waits without a timeout: whatever steps follow, at most
-- as many of them end as values are set after the close; the others stay, asleep or woken to sleep
-- again.
pub close_keeps_gets :
    {P : Type 0} (b : Bool) (s u : System P)
    → s.value.current ≡ none
    → Reach (run_close b s) u
    → past_test s + s.sets ≤ past_test u + u.sets
unfolding run_close close deliver
close_keeps_gets b s u empty r = ground (arith, (Reach-Blocked refl r).left)
