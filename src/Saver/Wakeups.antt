-- ===== src/Saver/Wakeups.antt =====
-- No thread sleeps on the condition variable without somebody about to wake it.
use moonclip.Prelude.{
  ◌-◌, ◌≡◌, ◌<◌, refl, List, [], ◌∷◌, Bool, true, false, not, ◌&&◌, ◌||◌, some, ◌==◌, arith, ◌⊎◌,
  inl, inr, Bool-cases,
}
use moonclip.Error.{Result, ok}
use moonclip.Manifest.{Uuid}
use Prim.Native.String.{String}
use moonclip.Saver.{
  AsyncSaver, Worker, awaits, saves, notifies, gone, submit, send, fall_asleep, flush, shutdown,
  take_job, finish_job, notify_all, notify_failed, failure, Step, submits, sends, sleeps, flushes,
  shuts_down, takes, finishes, wakes_all, wakes_after_failure, Reachable, start, then_step,
}
use moonclip.Saver.OneJob.{outstanding, outstanding_lem}

abbrev is_notifying : Worker → Bool
is_notifying w = elim w [ notifies ↦ true | _ ↦ false ]

abbrev is_gone : Worker → Bool
is_gone w = elim w [ gone ↦ true | _ ↦ false ]

-- Sleepers have a busy saver to wait for, or a notification that is due.
abbrev awaited : AsyncSaver → Bool
awaited s = (s.asleep == 0) || (s.busy || (not (s.failed_sends == 0) || is_notifying s.worker))

-- A busy saver is open, and the worker of an open one is there.
abbrev served : AsyncSaver → Bool
served s = (s.is_open || not s.busy) && not (is_gone s.worker && s.is_open)

Step-awaited : (s t : AsyncSaver) → Step s t → awaited s ≡ true → awaited t ≡ true
unfolding submit send fall_asleep flush shutdown take_job finish_job notify_all notify_failed
Step-awaited s t (submits a b job r h) inv = ground arith
Step-awaited s t (sends a b front back job r e h) inv = ground arith
Step-awaited s t (sleeps a b h) inv = ground arith
Step-awaited s t (flushes a b r h) inv = ground arith
Step-awaited s t (shuts_down a b h) inv = ground arith
Step-awaited s t (takes a b h) inv = ground arith
Step-awaited s t (finishes a b what r h) inv = ground arith
Step-awaited s t (wakes_all a b h) inv = ground arith
Step-awaited s t (wakes_after_failure a b h) inv = ground arith

Step-served : (s t : AsyncSaver) → Step s t → served s ≡ true → served t ≡ true
unfolding submit send fall_asleep flush shutdown take_job finish_job notify_all notify_failed
Step-served s t (submits a b job r h) inv = ground arith
Step-served s t (sends a b front back job r e h) inv = ground arith
Step-served s t (sleeps a b h) inv = ground arith
Step-served s t (flushes a b r h) inv = ground arith
Step-served s t (shuts_down a b h) inv = ground arith
Step-served s t (takes a b h) inv = ground arith
Step-served s t (finishes a b what r h) inv = ground arith
Step-served s t (wakes_all a b h) inv = ground arith
Step-served s t (wakes_after_failure a b h) inv = ground arith

invariants : (s : AsyncSaver) → Reachable s → (awaited s ≡ true) × (served s ≡ true)
invariants s start = (refl, refl)
invariants s (then_step {s = a} r step) =
    let (waits, serves) = invariants a r in
    (Step-awaited a s step waits, Step-served a s step serves)

-- The next step of the outstanding save: its send, which succeeds; its take; or its end, whatever it
-- comes to, after which the worker is about to notify.
abbrev pub Progress : String → Result (Unit {0}) → AsyncSaver → Type 0
Progress what r s =
    ((job : Uuid) × (others : List Uuid) × (s.sending ≡ job ∷ others)
      × ((send job others s).0 ≡ ok tt))
    ⊎ (((t : AsyncSaver) × (take_job s ≡ some t))
        ⊎ ((t : AsyncSaver) × (finish_job what r s ≡ some t) × (t.worker ≡ notifies)))

-- The worker has a notification due, and its step wakes every sleeper.
abbrev pub WakesAll : AsyncSaver → Type 0
WakesAll s = (t : AsyncSaver) × (notify_all s ≡ some t) × (t.asleep ≡ 0)

busy-Progress :
    (s : AsyncSaver) (what : String) (r : Result (Unit {0})) (jobs queued : List Uuid) (w : Worker)
    → s.sending ≡ jobs
    → s.queue ≡ queued
    → s.worker ≡ w
    → outstanding s ≡ 1
    → is_gone s.worker ≡ false
    → WakesAll s ⊎ Progress what r s
unfolding send take_job finish_job notify_all
busy-Progress s what r jobs queued gone e f g one here = absurd cc (rw g at here)
busy-Progress s what r jobs queued notifies e f g one here =
    inl (record s { worker = awaits; asleep = 0 }, rw g refl, refl)
busy-Progress s what r jobs queued (saves job) e f g one here = inr (
    inr (
      inr (
        record s { busy = false; error = failure what r s.error; worker = notifies },
        rw g refl,
        refl,
      )))
busy-Progress s what r (job ∷ others) queued awaits e f g one here =
    inr (inl (job, others, e, rw g refl))
busy-Progress s what r [] (job ∷ rest) awaits e f g one here =
    inr (inr (inl (record s { queue = rest; worker = saves job }, rw (g, f) refl)))
busy-Progress s what r [] [] awaits e f g one here = absurd (ground (arith, e, f, g, one))

wakes_now : (s : AsyncSaver) (w : Worker) → s.worker ≡ w → is_notifying s.worker ≡ true → WakesAll s
unfolding notify_all
wakes_now s notifies e h = (record s { worker = awaits; asleep = 0 }, rw e refl, refl)
wakes_now s awaits e h = absurd cc (rw e at h)
wakes_now s gone e h = absurd cc (rw e at h)
wakes_now s (saves job) e h = absurd cc (rw e at h)

-- No wake-up is lost. In every reachable state in which a thread sleeps, a notification is due that
-- wakes all sleepers, by the worker or after a failed send; or the saver is busy and its one save has
-- a next step that can be taken: a send that succeeds, a take, or an end that makes a notification due.
pub wakeup_lem :
    (s : AsyncSaver) (what : String) (r : Result (Unit {0}))
    → Reachable s
    → 0 < s.asleep
    → (WakesAll s ⊎ ((t : AsyncSaver) × (notify_failed s ≡ some t) × (t.asleep ≡ 0)))
      ⊎ ((s.busy ≡ true) × Progress what r s)
unfolding notify_failed
wakeup_lem s what r reach sleeping =
    let (waits, serves) = invariants s reach in
    elim (Bool-cases s.busy) [
      | inl busy ↦
          elim (busy-Progress s what r s.sending s.queue s.worker refl refl refl
            (ground (arith, outstanding_lem s reach, busy)) (ground (arith, busy, serves))) [
              | inl wakes ↦ inl (inl wakes)
              | inr next ↦ inr (busy, next)
            ]
      | inr idle ↦ elim (Bool-cases (s.failed_sends == 0)) [
        | inr due ↦ inl (
            inr (
              record s { failed_sends = s.failed_sends - 1; asleep = 0 },
              rw (due, notify_failed) refl,
              refl,
            ))
        | inl none_due ↦
            inl (inl (wakes_now s s.worker refl (ground (arith, waits, idle, none_due, sleeping))))
      ]
    ]
