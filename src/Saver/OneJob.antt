-- ===== src/Saver/OneJob.antt =====
-- At most one save is outstanding, and the flag says whether one is.
use moonclip.Prelude.{
  ℕ, suc, ◌+◌, ◌≡◌, List, [], ◌∷◌, ◌++◌, if◌then◌else◌, length, length-append, arith, ap, ◌∙◌,
}
use moonclip.Manifest.{Uuid}
use moonclip.Saver.{
  AsyncSaver, saves, submit, send, fall_asleep, flush, shutdown, take_job, finish_job, notify_all,
  notify_failed, Step, submits, sends, sleeps, flushes, shuts_down, takes, finishes, wakes_all,
  wakes_after_failure, Reachable, start, then_step,
}

-- The jobs accepted and not finished: those about to be sent, the queued ones and the one being saved.
abbrev pub outstanding : AsyncSaver → ℕ
outstanding s = length s.sending + length s.queue + elim s.worker [ saves job ↦ 1 | _ ↦ 0 ]

-- How many jobs the flag admits.
abbrev pub flagged : AsyncSaver → ℕ
flagged s = if s.busy then 1 else 0

length-middle :
    (front back jobs : List Uuid) (job : Uuid)
    → jobs ≡ front ++ (job ∷ back)
    → length jobs ≡ suc (length (front ++ back))
length-middle front back jobs job e =
    ap (λ js. length js) e
    ∙ omega (arith, length-append front (job ∷ back), length-append front back)

Step-outstanding :
    (s t : AsyncSaver) → Step s t → outstanding s ≡ flagged s → outstanding t ≡ flagged t
unfolding submit send fall_asleep flush shutdown take_job finish_job notify_all notify_failed
Step-outstanding s t (submits a b job r h) inv = ground arith
Step-outstanding s t (sends a b front back job r e h) inv =
    ground (arith, length-middle front back a.sending job e, length-append a.queue (job ∷ []))
Step-outstanding s t (sleeps a b h) inv = ground arith
Step-outstanding s t (flushes a b r h) inv = ground arith
Step-outstanding s t (shuts_down a b h) inv = ground arith
Step-outstanding s t (takes a b h) inv = ground arith
Step-outstanding s t (finishes a b what r h) inv = ground arith
Step-outstanding s t (wakes_all a b h) inv = ground arith
Step-outstanding s t (wakes_after_failure a b h) inv = ground arith

-- In every reachable state the saver is busy exactly while a save is outstanding, and there is never
-- more than one.
pub outstanding_lem : (s : AsyncSaver) → Reachable s → outstanding s ≡ (if s.busy then 1 else 0)
outstanding_lem s start = omega arith
outstanding_lem s (then_step {s = a} r step) = Step-outstanding a s step (outstanding_lem a r)
