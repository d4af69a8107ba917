-- ===== src/AsyncChannel/Sends.antt =====
-- src/base_channel_async.rs: sends, and the calls that try, on a channel whose receives are kept.
use rtsc.Prelude.{
  ℕ, suc, ◌≤◌, ◌≢◌, Bool, true, false, Option, none, some, List, arith, ◌==◌, ◌||◌, if◌then◌else◌,
  Bool-cases, inl, inr,
}
use rtsc.DataPolicy.{StorageTryPushOutput, pushed, skipped, full}
use rtsc.Deque.{Moment}
use rtsc.Storage.{ChannelStorage}
use rtsc.Storage.Laws.{StorageLaws}
use rtsc.AsyncWakers.{confirm_fut_waked}
use rtsc.AsyncChannel.{
  AsyncData, SendFuture, no_wakers, send_poll, send_runs, send_tries, send_pushes, send_waits,
}
use rtsc.AsyncChannel.Calls.{
  data_sent, data_received, try_pushed, blocking_pushed, timeout_pushed, try_got, try_send,
  send_blocking, send_blocking_timeout, try_recv,
}
use rtsc.AsyncChannel.Tasks.{Task, deliver}
use rtsc.AsyncChannel.Attached.{Kept, Kept-less}
use rtsc.AsyncChannel.KeptWakes.{wake_next-Kept}
use rtsc.AsyncChannel.System.{
  System, run_send_poll, run_try_send, run_send_blocking, run_send_blocking_timeout, run_try_recv,
}
use rtsc.AsyncChannel.Runs.{Live, got_at_most}

module _ {T S W : Type 0} (q : ChannelStorage T S) (IsValid : S → Type 0)
    (laws : StorageLaws q IsValid) where
  send_pushes-Live :
      {next : ℕ} {ts : List Task} (cx : W) (d : AsyncData S W) (f : SendFuture T) (old : S)
      (out : StorageTryPushOutput T)
      → IsValid d.queue
      → q.len d.queue ≤ suc (q.len old)
      → (out ≢ pushed → q.len d.queue ≤ q.len old)
      → Kept d.senders next (q.len old) d.recvs ts
      → let r = send_pushes cx d f out in Live q IsValid laws next r.inner (deliver r.woken ts)
  unfolding send_pushes send_waits deliver
  send_pushes-Live cx d f old pushed valid more same h = record {
    valid = valid;
    kept = wake_next-Kept (q.len d.queue) more h;
  }
  send_pushes-Live cx d f old skipped valid more same h = record {
    valid = valid;
    kept = Kept-less (q.len d.queue) (same (λ e. cc)) h;
  }
  send_pushes-Live cx d f old (full v) valid more same h = record {
    valid = valid;
    kept = Kept-less (q.len d.queue) (same (λ e. cc)) h;
  }

  send_tries-Live :
      {next : ℕ} {ts : List Task} (m : Moment) (cx : W) (d : AsyncData S W) (f : SendFuture T)
      (v : Option T)
      → Live q IsValid laws next d ts
      → let r = send_tries q m cx d f v in Live q IsValid laws next r.inner (deliver r.woken ts)
  unfolding send_tries deliver
  send_tries-Live m cx d f none live = live
  send_tries-Live m cx d f (some v) live =
      send_pushes-Live cx (record d { queue = (q.try_push m d.queue v).1 }) f d.queue
        (q.try_push m d.queue v).0 (laws.push-IsValid m d.queue v live.valid)
        (laws.len-push m d.queue v live.valid) (laws.len-push_refused m d.queue v live.valid)
        live.kept

  send_runs-Live :
      {next : ℕ} {ts : List Task} (m : Moment) (cx : W) (f : SendFuture T) (d : AsyncData S W)
      → Live q IsValid laws next d ts
      → let r = send_runs q m cx f d in Live q IsValid laws next r.inner (deliver r.woken ts)
  unfolding send_runs send_waits deliver
  send_runs-Live m cx f d live = elim (Bool-cases (d.receivers == 0)) [
    | inl e ↦ rw e live
    | inr e ↦ elim (Bool-cases (no_wakers d.sends.wakers || f.queued)) [
      | inl goes ↦ rw (e, goes) (send_tries-Live m cx d f f.value live)
      | inr late ↦ rw (e, late) (record { valid = live.valid; kept = live.kept })
    ]
  ]

  confirmed-Live :
      {next : ℕ} {ts : List Task} (id : ℕ) (d : AsyncData S W) (b : Bool)
      → Live q IsValid laws next d ts
      → Live q IsValid laws next
          (if b then record d { sends = confirm_fut_waked id d.sends } else d)
          ts
  confirmed-Live id d true live = record { valid = live.valid; kept = live.kept }
  confirmed-Live id d false live = live

  pub send_poll-Live :
      (m : Moment) (cx : W) (f : SendFuture T) (s : System T S W)
      → Live q IsValid laws s.next_id s.inner s.tasks
      → let u = run_send_poll q m cx f s in Live q IsValid laws u.next_id u.inner u.tasks
  unfolding run_send_poll send_poll
  send_poll-Live m cx f s live = send_runs-Live m cx f _ (confirmed-Live f.id s.inner f.queued live)

  pushed-Live :
      {next : ℕ} {ts : List Task} (d : AsyncData S W) (old : S) (out : StorageTryPushOutput T)
      → IsValid d.queue
      → q.len d.queue ≤ suc (q.len old)
      → (out ≢ pushed → q.len d.queue ≤ q.len old)
      → Kept d.senders next (q.len old) d.recvs ts
      → (let c = try_pushed d out in Live q IsValid laws next c.inner (deliver c.woken ts))
        × (let c = blocking_pushed d out in Live q IsValid laws next c.inner (deliver c.woken ts))
        × (let c = timeout_pushed d out in Live q IsValid laws next c.inner (deliver c.woken ts))
  unfolding try_pushed blocking_pushed timeout_pushed data_sent deliver
  pushed-Live d old pushed valid more same h =
      let live = wake_next-Kept (q.len d.queue) more h in
      (
        record { valid = valid; kept = live },
        record { valid = valid; kept = live },
        record { valid = valid; kept = live },
      )
  pushed-Live d old skipped valid more same h =
      let live = Kept-less (q.len d.queue) (same (λ e. cc)) h in
      (
        record { valid = valid; kept = live },
        record { valid = valid; kept = live },
        record { valid = valid; kept = wake_next-Kept (q.len d.queue) more h },
      )
  pushed-Live d old (full v) valid more same h =
      let live = Kept-less (q.len d.queue) (same (λ e. cc)) h in
      (
        record { valid = valid; kept = live },
        record { valid = valid; kept = live },
        record { valid = valid; kept = live },
      )

  pub calls-Live :
      (m : Moment) (v : T) (s : System T S W)
      → Live q IsValid laws s.next_id s.inner s.tasks
      → (let u = run_try_send q m v s in Live q IsValid laws u.next_id u.inner u.tasks)
        × (let u = run_send_blocking q m v s in Live q IsValid laws u.next_id u.inner u.tasks)
        × (let u = run_send_blocking_timeout q m v s in
            Live q IsValid laws u.next_id u.inner u.tasks)
  unfolding run_try_send try_send run_send_blocking send_blocking run_send_blocking_timeout
      send_blocking_timeout deliver
  calls-Live m v s live =
      let d = s.inner in
      elim (Bool-cases (d.receivers == 0)) [
        | inl e ↦ rw e (
          record { valid = live.valid; kept = live.kept },
          record { valid = live.valid; kept = live.kept },
          record { valid = live.valid; kept = live.kept },
        )
        | inr e ↦ rw e (
            pushed-Live (record d { queue = (q.try_push m d.queue v).1 }) d.queue
              (q.try_push m d.queue v).0 (laws.push-IsValid m d.queue v live.valid)
              (laws.len-push m d.queue v live.valid) (laws.len-push_refused m d.queue v live.valid)
              live.kept)
      ]

  try_got-Live :
      {next : ℕ} {ts : List Task} (d : AsyncData S W) (value : Option T)
      → Live q IsValid laws next d ts
      → Live q IsValid laws next (try_got d value).inner ts
  unfolding try_got data_received
  try_got-Live d (some v) live = record { valid = live.valid; kept = live.kept }
  try_got-Live d none live = live

  pub try_recv-Live :
      (m : Moment) (s : System T S W)
      → Live q IsValid laws s.next_id s.inner s.tasks
      → let u = run_try_recv q m s in Live q IsValid laws u.next_id u.inner u.tasks
  unfolding run_try_recv try_recv
  try_recv-Live m s live =
      let d = s.inner in
      let less : q.len (q.get m d.queue).1 ≤ q.len d.queue =
        omega (arith, got_at_most q IsValid laws m d.queue) in
      try_got-Live (record d { queue = (q.get m d.queue).1 }) (q.get m d.queue).0
        (record {
          valid = laws.get-IsValid m d.queue live.valid;
          kept = Kept-less (q.len (q.get m d.queue).1) less live.kept;
        })
