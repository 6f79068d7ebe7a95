-- ===== src/Scheduler.antt =====
-- core/runtime/scheduler.go: tasks that run at intervals until the scheduler stops.
use node_decent_system.Prelude.{
  ℕ, zero, suc, ◌<◌, ◌≡◌, refl, ap, ◌∙◌, Bool, true, false, Bool-cases, inl, inr, List, [], ◌∷◌,
  ◌++◌, arith, if◌then◌else◌, Bytes, str_eq, Go, returns, panics,
}
use node_decent_system.GoMap.{GoMap, put}

-- A goroutine of `ScheduleRecurring`: its task and its context, by their names, and whether its
-- loop still runs.
pub record Loop : Type 0 where
  pub task : Bytes
  pub context : Bytes
  pub runs : Bool

-- `stopped` says that `stopCh` is closed; `ran` has the tasks that ran, in order.
pub record Scheduler : Type 0 where
  pub tasks : GoMap ℕ
  pub stopped : Bool
  pub loops : List Loop
  pub ran : List Bytes

unfoldable pub new_scheduler : Scheduler
new_scheduler = record { tasks = []; stopped = false; loops = []; ran = [] }

-- An interval that is not positive makes `NewTicker` panic.
unfoldable pub schedule_recurring : Scheduler → Bytes → Bytes → ℕ → Bytes → Go Scheduler
schedule_recurring s context name zero task = panics
schedule_recurring s context name (suc interval) task = returns (record s {
  tasks = put s.tasks name (suc interval);
  loops = s.loops ++ record { task = task; context = context; runs = true } ∷ [];
})

-- `close(s.stopCh)`: a second close panics.
close_stop : Scheduler → Go Scheduler
close_stop s = if s.stopped then panics else returns (record s { stopped = true })

-- The `select` of `Stop`: a closed channel is ready, so the default case is not taken.
unfoldable pub stop : Scheduler → Go Scheduler
unfolding close_stop
stop s = if s.stopped then returns s else close_stop s

-- What the `select` of a loop takes: a tick, the stop, or the end of its context.
pub data Case : Type 0 where
  tick stops ends : Case

has : Bytes → List Bytes → Bool
has c [] = false
has c (d ∷ ds) = let rest = has c ds in if str_eq d c then true else rest

-- Whether a case is ready; a tick may come at any time.
ready : Bool → List Bytes → Loop → Case → Bool
unfolding has
ready stopped done l tick = true
ready stopped done l stops = stopped
ready stopped done l ends = has l.context done

takes : Loop → Case → Loop × List Bytes
takes l tick = (l, l.task ∷ [])
takes l stops = (record l { runs = false }, [])
takes l ends = (record l { runs = false }, [])

-- A loop's turn, when it still runs and the case is ready.
unfoldable pub turn : Bool → List Bytes → Loop → Case → Loop × List Bytes
unfolding ready takes
turn stopped done l c =
    if l.runs then (if ready stopped done l c then takes l c else (l, [])) else (l, [])

-- The loop at an index, if it is there, with the given contexts done.
turn_at : Bool → List Bytes → List Loop → ℕ → Case → List Loop × List Bytes
turn_at stopped done [] i c = ([], [])
turn_at stopped done (l ∷ ls) zero c = let (l', ran) = turn stopped done l c in (l' ∷ ls, ran)
turn_at stopped done (l ∷ ls) (suc i) c =
    let (ls', ran) = turn_at stopped done ls i c in (l ∷ ls', ran)

unfoldable pub take_turn : Scheduler → List Bytes → ℕ → Case → Scheduler
unfolding turn_at
take_turn s done i c =
    let (loops', ran) = turn_at s.stopped done s.loops i c in
    record s { loops = loops'; ran = s.ran ++ ran }

-- Calls and turns, in order; `none` in place of a panic.
pub data Step : Type 0 where
  schedules : Bytes → Bytes → ℕ → Bytes → Step
  stops_all : Step
  turns : List Bytes → ℕ → Case → Step

after : Go Scheduler → (Scheduler → Go Scheduler) → Go Scheduler
after panics k = panics
after (returns s) k = k s

unfoldable pub run : List Step → Scheduler → Go Scheduler
unfolding after
run [] s = returns s
run (schedules context name interval task ∷ ss) s =
    after (schedule_recurring s context name interval task) (run ss)
run (stops_all ∷ ss) s = after (stop s) (run ss)
run (turns done i c ∷ ss) s = run ss (take_turn s done i c)

-- All intervals are positive.
abbrev pub PositiveIntervals : List Step → Type 0
PositiveIntervals [] = Unit
PositiveIntervals (schedules context name interval task ∷ ss) =
    (0 < interval) × PositiveIntervals ss
PositiveIntervals (stops_all ∷ ss) = PositiveIntervals ss
PositiveIntervals (turns done i c ∷ ss) = PositiveIntervals ss

stop-returns : (s : Scheduler) → stop s ≡ returns (record s { stopped = true })
unfolding stop close_stop
stop-returns s = elim (Bool-cases s.stopped) [
  | inl e ↦ ap choose e ∙ ap (λ b. returns (record s { stopped = b })) e
  | inr e ↦ ap choose e
]
  where
    choose : Bool → Go Scheduler
    choose b =
        if b then returns s else (if b then panics else returns (record s { stopped = true }))

-- Positive intervals keep a scheduler from panicking, however often it is stopped, before or after
-- tasks are scheduled and while their loops run.
pub run-returns :
    (ss : List Step) (s : Scheduler)
    → PositiveIntervals ss
    → (s' : Scheduler) × (run ss s ≡ returns s')
unfolding run after schedule_recurring
run-returns [] s h = (s, refl)
run-returns (schedules context name zero task ∷ ss) s h = absurd (omega (arith, h.0))
run-returns (schedules context name (suc interval) task ∷ ss) s h = run-returns ss _ h.1
run-returns (stops_all ∷ ss) s h =
    let (s', e) = run-returns ss (record s { stopped = true }) h in
    (s', ap (λ g. after g (run ss)) (stop-returns s) ∙ e)
run-returns (turns done i c ∷ ss) s h = run-returns ss (take_turn s done i c) h
