-- ===== src/Kernel/Planners.antt =====
-- kernel/src/planners.c: the threads that admit processes and give them the CPU, cut at each
-- `sem_wait`, and the kernel as these threads and the two connections take turns.
use old_so_tp.Prelude.{suc, [], ◌∷◌, ◌++◌}
use old_so_tp.Commons.{Commons}
use old_so_tp.Shared.Operation.{OperationCode, interrupt_quantum}
use old_so_tp.Kernel.State.{Kernel, Run, done, ◌>>=◌, down}
use old_so_tp.Kernel.Queues.{move_process_to_ready, move_process_to_exec}

-- The semaphore that a planner waits on next. At `at_quantum` it sleeps, for the quantum of the
-- configuration.
pub data LongAt : Type 0 where
  at_long_planner at_degree at_new : LongAt

pub data ShortAt : Type 0 where
  at_short_planner at_ready at_cpu at_quantum : ShortAt

-- The planning algorithm of the configuration, but for the one by priorities.
pub data Algorithm : Type 0 where
  fifo round_robin : Algorithm

pub record System : Type 0 where
  pub kernel : Kernel
  pub long : LongAt
  pub short : ShortAt
  pub algorithm : Algorithm

module _ (lib : Commons) where
  -- The rest of a round of `long_term_planner` after its last wait.
  unfoldable pub admit : Kernel → Run Kernel
  admit k = do
    k1 ← move_process_to_ready lib k
    done (record k1 {
      sem_process_ready = suc k1.sem_process_ready;
      sem_long_term_planner = suc k1.sem_long_term_planner;
    })

  -- One wait of `long_term_planner`, with what follows it up to the next one.
  unfoldable pub long_term_step : System → Run System
  unfolding admit
  long_term_step s =
      let k = s.kernel in
      elim s.long [
        | at_long_planner ↦ (do
          k1 ← down k.sem_long_term_planner (λ n. record k { sem_long_term_planner = n })
          done (record s { kernel = k1; long = at_degree }))
        | at_degree ↦ (do
          k1 ←
              down k.sem_multiprogramming_degree (λ n. record k { sem_multiprogramming_degree = n })
          done (record s { kernel = k1; long = at_new }))
        | at_new ↦ (do
          k1 ← down k.sem_process_new (λ n. record k { sem_process_new = n })
          k2 ← admit k1
          done (record s { kernel = k2; long = at_long_planner }))
      ]

  unfoldable pub interrupt_process : Kernel → OperationCode → Kernel
  interrupt_process k operation = record k { interrupts = k.interrupts ++ operation ∷ [] }

  -- The rest of a round of the planner after its last wait: FIFO lets the next round begin, and
  -- round robin sleeps first.
  unfoldable pub dispatch : System → Kernel → Run System
  dispatch s k = do
    k1 ← move_process_to_exec lib k
    (elim s.algorithm as (λ x. Run System) [
      | fifo ↦ done (record s {
        kernel = record k1 { sem_short_term_planner = suc k1.sem_short_term_planner };
        short = at_short_planner;
      })
      | round_robin ↦ done (record s { kernel = k1; short = at_quantum })
    ])

  -- One wait of `planing_with_fifo` or `planning_with_round_robin`, or the end of a quantum.
  unfoldable pub short_term_step : System → Run System
  unfolding dispatch interrupt_process
  short_term_step s =
      let k = s.kernel in
      elim s.short [
        | at_short_planner ↦ (do
          k1 ← down k.sem_short_term_planner (λ n. record k { sem_short_term_planner = n })
          done (record s { kernel = k1; short = at_ready }))
        | at_ready ↦ (do
          k1 ← down k.sem_process_ready (λ n. record k { sem_process_ready = n })
          done (record s { kernel = k1; short = at_cpu }))
        | at_cpu ↦ (do
          k1 ← down k.sem_cpu_available (λ n. record k { sem_cpu_available = n })
          dispatch s k1)
        | at_quantum ↦
            let k1 = interrupt_process k interrupt_quantum in
            done (record s {
              kernel = record k1 { sem_short_term_planner = suc k1.sem_short_term_planner };
              short = at_short_planner;
            })
      ]
