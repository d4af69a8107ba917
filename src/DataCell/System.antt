-- ===== src/DataCell/System.antt =====
-- src/cell/datacell.rs: threads that share a cell, in any interleaving.
use rtsc.Prelude.{ℕ, ◌+◌, ◌-◌, ◌<◌, Bool, true, false, ◌&&◌, ◌||◌, ltb, ◌==◌, if◌then◌else◌}
use rtsc.DataCell.{
  CellValue, Notify, silent, notify_one, notify_all, Next, returns, waits, new, close, set, replace,
  get_again, get_first, try_get,
}

-- The calls of one kind, with a timeout or without: those about to run their first round, those
-- woken that are about to run another one, and those that wait.
pub record Gets : Type 0 where
  pub called : ℕ
  pub woken : ℕ
  pub waiting : ℕ

pub record System (P : Type 0) : Type 0 where
  pub value : CellValue P
  pub plain : Gets
  pub timed : Gets
  pub sets : ℕ

abbrev pub wake_one : Gets → Gets
wake_one g = record g { woken = g.woken + 1; waiting = g.waiting - 1 }

abbrev pub wake_all : Gets → Gets
wake_all g = record g { woken = g.woken + g.waiting; waiting = 0 }

module _ {P : Type 0} where
  -- One waiter wakes if there is any; `prefers_timed` chooses which, where both kinds wait.
  unfoldable pub deliver : Bool → Notify → System P → System P
  deliver prefers_timed silent s = s
  deliver prefers_timed notify_one s =
      if ltb 0 s.timed.waiting && (prefers_timed || s.plain.waiting == 0)
      then record s { timed = wake_one s.timed }
      else if ltb 0 s.plain.waiting
      then record s { plain = wake_one s.plain }
      else s
  deliver prefers_timed notify_all s = record s {
    timed = wake_all s.timed;
    plain = wake_all s.plain;
  }

  -- The end of a round, for the calls of its kind that are left.
  abbrev pub ends : Next P → Gets → Gets
  ends (returns _) g = g
  ends waits g = record g { waiting = g.waiting + 1 }

  unfoldable pub run_first : Bool → System P → System P
  run_first is_timed s =
      let (next, value) = get_first s.value in
      if is_timed
      then record s {
        value = value;
        timed = ends next (record s.timed { called = s.timed.called - 1 });
      }
      else record s {
        value = value;
        plain = ends next (record s.plain { called = s.plain.called - 1 });
      }

  unfoldable pub run_again : Bool → System P → System P
  run_again is_timed s =
      let (next, value) = get_again s.value in
      if is_timed
      then record s {
        value = value;
        timed = ends next (record s.timed { woken = s.timed.woken - 1 });
      }
      else record s {
        value = value;
        plain = ends next (record s.plain { woken = s.plain.woken - 1 });
      }

  unfoldable pub run_set : Bool → P → System P → System P
  run_set prefers_timed content s =
      let (value, notify) = set s.value content in
      deliver prefers_timed notify (record s { value = value; sets = s.sets + 1 })

  unfoldable pub run_replace : Bool → P → System P → System P
  run_replace prefers_timed content s =
      let (_, value, notify) = replace s.value content in
      deliver prefers_timed notify (record s { value = value; sets = s.sets + 1 })

  unfoldable pub run_close : Bool → System P → System P
  run_close prefers_timed s =
      let (value, notify) = close s.value in
      deliver prefers_timed notify (record s { value = value })

  unfoldable pub run_try_get : System P → System P
  run_try_get s = let (_, value) = try_get s.value in record s { value = value }

pub data Step {P : Type 0} (s : System P) : System P → Type 0 where
  call_get : Step s (record s { plain = record s.plain { called = s.plain.called + 1 } })
  call_get_timeout : Step s (record s { timed = record s.timed { called = s.timed.called + 1 } })
  runs_get : 0 < s.plain.called → Step s (run_first false s)
  runs_get_timeout : 0 < s.timed.called → Step s (run_first true s)
  goes_on : 0 < s.plain.woken → Step s (run_again false s)
  goes_on_timed : 0 < s.timed.woken → Step s (run_again true s)
  times_out :
      0 < s.timed.waiting
      → Step s (record s { timed = record s.timed { waiting = s.timed.waiting - 1 } })
  sets_value : (prefers_timed : Bool) (content : P) → Step s (run_set prefers_timed content s)
  replaces : (prefers_timed : Bool) (content : P) → Step s (run_replace prefers_timed content s)
  closes : (prefers_timed : Bool) → Step s (run_close prefers_timed s)
  tries : Step s (run_try_get s)

pub data Reach {P : Type 0} (s : System P) : System P → Type 0 where
  start : Reach s s
  later : {t u : System P} → Reach s t → Step t u → Reach s u

abbrev pub no_gets : Gets
no_gets = record { called = 0; woken = 0; waiting = 0 }

abbrev pub initial : {P : Type 0} → System P
initial = record { value = new; plain = no_gets; timed = no_gets; sets = 0 }
