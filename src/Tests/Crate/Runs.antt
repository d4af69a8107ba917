-- ===== src/Tests/Crate/Runs.antt =====
-- How the threads of the tests of src/channel.rs and src/policy_channel.rs run: some send and the
-- test receives.
-- `sends` is what they do, in one order, from the moment they run until one waits. They run before
-- the first receive, and again between two receives, as the test sees to by its sleeps; `m` is the
-- moment of all calls. Whoever has waited longest is woken first.
use rtsc.Prelude.{
  ℕ, zero, suc, Bool, true, false, ◌&&◌, Option, some, none, List, [], ◌∷◌, ◌++◌, if◌then◌else◌,
}
use rtsc.Error.{Error, channel_skipped, ok, err}
use rtsc.Deque.{Moment}
use rtsc.Storage.{ChannelStorage}
use rtsc.BaseChannel.{
  InnerData, Next, returns, waits, Notify, notify_all, data_available, send_round, recv_round,
  drop_sender,
}
use rtsc.Tests.Crate.{gives}

abbrev pub is_skipped : Error → Bool
is_skipped channel_skipped = true
is_skipped _ = false

abbrev pub times : {A : Type 0} → ℕ → List A → List A
times zero xs = []
times (suc n) xs = xs ++ times n xs

module _ {T S : Type 0} (q : ChannelStorage T S) (may_skip : T → Bool) (m : Moment) where
  -- One send for each value: what is still to be sent, and the channel, where `sent` is what happens
  -- after a send. `none` is that an assertion fails.
  abbrev pub sends :
      (sent : InnerData S → InnerData S) → List T → InnerData S → Option (List T × InnerData S)
  sends sent [] d = some ([], d)
  sends sent (v ∷ vs) d =
      let r = send_round q m d v in
      let rest = sends sent vs (sent r.inner) in
      elim r.next [
        | returns (ok u) ↦ rest
        | returns (err e) ↦ if may_skip v && is_skipped e then rest else none
        | waits w ↦ some (v ∷ vs, r.inner)
      ]

  -- A thread that sends all values and then drops its sender.
  abbrev drops_last : List T × InnerData S → List T × InnerData S
  drops_last ([], d) = ([], (drop_sender d).0)
  drops_last (v ∷ vs, d) = (v ∷ vs, d)

  abbrev pub all_by_one : List T → InnerData S → Option (List T × InnerData S)
  all_by_one [] d = some ([], d)
  all_by_one (v ∷ vs) d = elim (sends (λ d'. d') (v ∷ vs) d) [
    | some left ↦ some (drops_last left)
    | none ↦ none
  ]

  -- Threads that send a value each, by their own senders.
  abbrev pub one_each : List T → InnerData S → Option (List T × InnerData S)
  one_each vs d = sends (λ d'. (drop_sender d').0) vs d

  -- At most so many receives, until one fails; a wait would not end.
  abbrev pub receives :
      (List T → InnerData S → Option (List T × InnerData S))
      → ℕ
      → List T
      → InnerData S
      → Option (List T)
  receives others zero unsent d = some []
  receives others (suc n) unsent d =
      let r = recv_round q m d in
      elim r.next [
        | returns (ok v) ↦ elim (others unsent r.inner) [
          | some (unsent', d') ↦ elim (receives others n unsent' d') [
            | some vs ↦ some (v ∷ vs)
            | none ↦ none
          ]
          | none ↦ none
        ]
        | returns (err e) ↦ some []
        | waits w ↦ none
      ]

  abbrev pub delivered :
      (List T → InnerData S → Option (List T × InnerData S))
      → ℕ
      → List T
      → InnerData S
      → Option (List T)
  delivered others turns vs d = elim (others vs d) [
    | some (unsent, d') ↦ receives others turns unsent d'
    | none ↦ none
  ]

  -- A thread that receives until an error, while another one drops its sender; `dropped` is whether
  -- that takes place before. It tells whether the receiving thread ends.
  abbrev is_ended : Next T (Unit {0}) → Bool
  is_ended (returns (ok v)) = false
  is_ended (returns (err e)) = true
  is_ended (waits w) = false

  abbrev wakes_receivers : Notify → Bool
  wakes_receivers (notify_all data_available) = true
  wakes_receivers _ = false

  abbrev pub is_finished : (dropped : Bool) → InnerData S → Bool
  is_finished true d = is_ended (recv_round q m (drop_sender d).0).next
  is_finished false d =
      let r = recv_round q m d in
      let (d', woken) = drop_sender r.inner in
      elim r.next [
        | returns result ↦ is_ended (returns result)
        | waits w ↦ wakes_receivers woken && is_ended (recv_round q m d').next
      ]

  abbrev pub is_sent : Next (Unit {0}) T → Bool
  is_sent (returns r) = gives (λ _. true) r
  is_sent (waits w) = false

  abbrev is_received : (T → Bool) → Next T (Unit {0}) → Bool
  is_received expected (returns r) = gives expected r
  is_received expected (waits w) = false

  abbrev pub sends_and_receives : T → (T → Bool) → InnerData S → Bool
  sends_and_receives v expected d =
      let r = send_round q m d v in
      let r' = recv_round q m r.inner in
      is_sent r.next && is_received expected r'.next && q.is_empty r'.inner.queue
