-- ===== src/Saver.antt =====
-- src/coordinator/saver.rs: the background thread a save is handed to. The channel is a list of jobs.
-- A job is its snapshot's id; an error is its text. Each critical section, each operation on the channel
-- and each notification is one step of its thread, and so is a thread's falling asleep on the condition
-- variable.
pub mod OneJob
pub mod Wakeups
mod Tests
use moonclip.Prelude.{
  ℕ, suc, ◌+◌, ◌-◌, List, [], ◌∷◌, ◌++◌, Bool, true, false, Option, none, some, ◌≡◌, ◌==◌,
  if◌then◌else◌,
}
use moonclip.Error.{MoonclipError, Result, ok, err, panic}
use moonclip.Error.MoonclipError.{storage}
use moonclip.Manifest.{Uuid}
use Prim.Native.String.{String}

-- Where the worker is: at the channel, in a save, between the end of a save and its notification, or
-- out of its loop.
pub data Worker : Type 0 where
  awaits notifies gone : Worker
  saves : Uuid → Worker

pub record AsyncSaver : Type 0 where
  -- `tx.is_some()`
  pub is_open : Bool
  pub busy : Bool
  pub error : Option String
  -- The jobs of the threads in `submit` that have set the flag and not yet sent.
  pub sending : List Uuid
  pub queue : List Uuid
  pub worker : Worker
  -- The threads in `submit` whose send has failed and that have not yet notified.
  pub failed_sends : ℕ
  -- The threads asleep on the condition variable.
  pub asleep : ℕ

abbrev pub new : AsyncSaver
new = record {
  is_open = true;
  busy = false;
  error = none;
  sending = [];
  queue = [];
  worker = awaits;
  failed_sends = 0;
  asleep = 0;
}

-- `submit` up to the send: none while it is busy.
unfoldable pub submit : Uuid → AsyncSaver → Option (Result (Unit {0}) × AsyncSaver)
submit job s =
    if s.is_open
    then if s.busy then none else elim s.error [
      | some e ↦ some (err storage, record s { error = none })
      | none ↦ some (ok tt, record s { busy = true; sending = job ∷ s.sending })
    ]
    else some (err storage, s)

-- `tx.send(job)`, where the others have yet to send theirs. It fails where the worker is gone, and then
-- the flag is reset.
unfoldable pub send : Uuid → List Uuid → AsyncSaver → Result (Unit {0}) × AsyncSaver
send job others s = elim s.worker [
  | gone ↦
      (err storage, record s { busy = false; sending = others; failed_sends = suc s.failed_sends })
  | _ ↦ (ok tt, record s { sending = others; queue = s.queue ++ (job ∷ []) })
]

-- A thread in `submit`, `flush` or `wait_idle` that finds the saver busy falls asleep.
unfoldable pub fall_asleep : AsyncSaver → Option AsyncSaver
fall_asleep s = if s.busy then some (record s { asleep = suc s.asleep }) else none

-- `flush`: none while it is busy.
unfoldable pub flush : AsyncSaver → Option (Result (Unit {0}) × AsyncSaver)
flush s = if s.busy then none else elim s.error [
  | some e ↦ some (err storage, record s { error = none })
  | none ↦ some (ok tt, s)
]

-- `wait_idle` and then `tx.take()`. It borrows the saver for itself, so no thread is in `submit`.
unfoldable pub shutdown : AsyncSaver → Option AsyncSaver
shutdown s =
    if s.busy
    then none
    else elim s.sending [ [] ↦ some (record s { is_open = false }) | job ∷ others ↦ none ]

-- `for job in rx`: the worker takes the next job, or leaves where there is none and no more to come.
unfoldable pub take_job : AsyncSaver → Option AsyncSaver
take_job s = elim s.worker [
  | awaits ↦ elim s.queue [
    | job ∷ rest ↦ some (record s { queue = rest; worker = saves job })
    | [] ↦ if s.is_open then none else some (record s { worker = gone })
  ]
  | _ ↦ none
]

-- The text that a save's end leaves for the next caller.
abbrev pub failure : String → Result (Unit {0}) → Option String → Option String
failure what (ok u) before = before
failure what (err e) before = some what
failure what panic before = some what

-- The worker publishes what the save came to; a panic is caught.
unfoldable pub finish_job : String → Result (Unit {0}) → AsyncSaver → Option AsyncSaver
finish_job what result s = elim s.worker [
  | saves job ↦
      some (record s { busy = false; error = failure what result s.error; worker = notifies })
  | _ ↦ none
]

-- The worker's `notify_all`, after which it goes back to the channel.
unfoldable pub notify_all : AsyncSaver → Option AsyncSaver
notify_all s = elim s.worker [
  | notifies ↦ some (record s { worker = awaits; asleep = 0 })
  | _ ↦ none
]

-- The `notify_all` after a failed send.
unfoldable pub notify_failed : AsyncSaver → Option AsyncSaver
notify_failed s =
    if s.failed_sends == 0
    then none
    else some (record s { failed_sends = s.failed_sends - 1; asleep = 0 })

-- One step of a caller or of the worker.
pub data Step : AsyncSaver → AsyncSaver → Type 0 where
  submits :
      (s t : AsyncSaver) (job : Uuid) (r : Result (Unit {0}))
      → submit job s ≡ some (r, t)
      → Step s t
  sends :
      (s t : AsyncSaver) (front back : List Uuid) (job : Uuid) (r : Result (Unit {0}))
      → s.sending ≡ front ++ (job ∷ back)
      → send job (front ++ back) s ≡ (r, t)
      → Step s t
  sleeps : (s t : AsyncSaver) → fall_asleep s ≡ some t → Step s t
  flushes : (s t : AsyncSaver) (r : Result (Unit {0})) → flush s ≡ some (r, t) → Step s t
  shuts_down : (s t : AsyncSaver) → shutdown s ≡ some t → Step s t
  takes : (s t : AsyncSaver) → take_job s ≡ some t → Step s t
  finishes :
      (s t : AsyncSaver) (what : String) (r : Result (Unit {0}))
      → finish_job what r s ≡ some t
      → Step s t
  wakes_all : (s t : AsyncSaver) → notify_all s ≡ some t → Step s t
  wakes_after_failure : (s t : AsyncSaver) → notify_failed s ≡ some t → Step s t

-- What any interleaving of the callers and the worker reaches.
pub data Reachable : AsyncSaver → Type 0 where
  start : Reachable new
  then_step : {s t : AsyncSaver} → Reachable s → Step s t → Reachable t
