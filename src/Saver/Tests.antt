-- ===== src/Saver/Tests.antt =====
-- A save that is submitted, sent and taken, while another thread waits for it.
use moonclip.Prelude.{[], ◌∷◌, ◌≡◌, ◌⊎◌, refl, true, some, arith, if◌then◌else◌}
use moonclip.Error.{ok, err}
use moonclip.Error.MoonclipError.{storage}
use moonclip.Saver.{
  AsyncSaver, Reachable, new, saves, submit, send, fall_asleep, take_job, notify_failed, start,
  then_step, submits, sends, sleeps, takes,
}
use moonclip.Saver.OneJob.{outstanding, outstanding_lem}
use moonclip.Saver.Wakeups.{WakesAll, Progress, wakeup_lem}

abbrev submitted : AsyncSaver
submitted = record (new) { busy = true; sending = 7 ∷ [] }

submitted-Reachable : Reachable submitted
unfolding submit
submitted-Reachable = then_step start (submits new submitted 7 (ok tt) refl)

abbrev sent : AsyncSaver
sent = record (new) { busy = true; queue = 7 ∷ [] }

sent-Reachable : Reachable sent
unfolding send
sent-Reachable = then_step submitted-Reachable (sends submitted sent [] [] 7 (ok tt) refl refl)

abbrev taken : AsyncSaver
taken = record (new) { busy = true; worker = saves 7 }

taken-Reachable : Reachable taken
unfolding take_job
taken-Reachable = then_step sent-Reachable (takes sent taken refl)

abbrev waited_for : AsyncSaver
waited_for = record taken { asleep = 1 }

waited_for-Reachable : Reachable waited_for
unfolding fall_asleep
waited_for-Reachable = then_step taken-Reachable (sleeps taken waited_for refl)

outstanding_example : outstanding submitted ≡ (if true then 1 else 0)
outstanding_example = outstanding_lem submitted submitted-Reachable

wakeup_example :
    (WakesAll waited_for
      ⊎ ((t : AsyncSaver) × (notify_failed waited_for ≡ some t) × (t.asleep ≡ 0)))
    ⊎ ((waited_for.busy ≡ true) × Progress "disk full" (err storage) waited_for)
wakeup_example = wakeup_lem waited_for "disk full" (err storage) waited_for-Reachable (omega arith)
