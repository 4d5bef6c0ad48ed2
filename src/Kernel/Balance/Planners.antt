-- ===== src/Kernel/Balance/Planners.antt =====
-- The planners keep the counts, and never pop an empty queue.
use old_so_tp.Prelude.{ℕ, ◌≡◌, ap, length, arith}
use old_so_tp.Commons.{Commons}
use old_so_tp.Kernel.State.{Kernel}
use old_so_tp.Kernel.Queues.{move_process_to_ready, move_process_to_exec}
use old_so_tp.Kernel.Planners.{
  LongAt, at_long_planner, at_degree, at_new, ShortAt, at_short_planner, at_ready, at_cpu,
  at_quantum, System, Algorithm, fifo, round_robin, admit, dispatch, interrupt_process,
  long_term_step, short_term_step,
}
use old_so_tp.Kernel.Balance.{
  Counts, settled, Balanced, Ends, degree_token, ready_token, long_count, short_count,
}
use old_so_tp.Kernel.Balance.Rules.{Ends-down, Ends-pop, Ends-map, length-push}

module _ (lib : Commons) where
  long_lem :
      (degree : ℕ) (k : Kernel) (long : LongAt) (short : ShortAt) (algorithm : Algorithm)
      → Counts settled degree (degree_token long) (ready_token short) k
      → Ends (long_count k long ≡ 0) (Balanced degree) (
          long_term_step lib
            (record { kernel = k; long = long; short = short; algorithm = algorithm }))
  unfolding long_term_step admit move_process_to_ready
  long_lem degree k at_long_planner short algorithm c =
      Ends-down _ (Balanced degree) k.sem_long_term_planner _ _ (λ z. z)
        (λ m e. record {
          new_count = c.new_count;
          ready_count = c.ready_count;
          blocked_count = c.blocked_count;
          cpu_count = c.cpu_count;
          degree_count = c.degree_count;
          instance_count = c.instance_count;
          queue_count = c.queue_count;
        })
  long_lem degree k at_degree short algorithm c =
      Ends-down _ (Balanced degree) k.sem_multiprogramming_degree _ _ (λ z. z)
        (λ m e. record {
          new_count = c.new_count;
          ready_count = c.ready_count;
          blocked_count = c.blocked_count;
          cpu_count = c.cpu_count;
          degree_count = omega arith;
          instance_count = c.instance_count;
          queue_count = c.queue_count;
        })
  long_lem degree k at_new short algorithm c =
      Ends-down _ (Balanced degree) k.sem_process_new _ _ (λ z. z)
        (λ m e. Ends-map _ (Balanced degree) (admit lib (record k { sem_process_new = m })) _ (
          Ends-map _ _ (move_process_to_ready lib (record k { sem_process_new = m })) _ (
            Ends-pop lib _ _ k.queue_new _ (omega arith) (λ a rest q. record {
              new_count = let l = ap length q in omega arith;
              ready_count = omega (arith, length-push lib k.queue_ready a);
              blocked_count = c.blocked_count;
              cpu_count = c.cpu_count;
              degree_count = omega (arith, length-push lib k.queue_ready a);
              instance_count = c.instance_count;
              queue_count = c.queue_count;
            }))))

  short_lem :
      (degree : ℕ) (k : Kernel) (long : LongAt) (short : ShortAt) (algorithm : Algorithm)
      → Counts settled degree (degree_token long) (ready_token short) k
      → Ends (short_count k short ≡ 0) (Balanced degree) (
          short_term_step lib
            (record { kernel = k; long = long; short = short; algorithm = algorithm }))
  unfolding short_term_step dispatch interrupt_process move_process_to_exec
  short_lem degree k long at_short_planner algorithm c =
      Ends-down _ (Balanced degree) k.sem_short_term_planner _ _ (λ z. z)
        (λ m e. record {
          new_count = c.new_count;
          ready_count = c.ready_count;
          blocked_count = c.blocked_count;
          cpu_count = c.cpu_count;
          degree_count = c.degree_count;
          instance_count = c.instance_count;
          queue_count = c.queue_count;
        })
  short_lem degree k long at_ready algorithm c =
      Ends-down _ (Balanced degree) k.sem_process_ready _ _ (λ z. z)
        (λ m e. record {
          new_count = c.new_count;
          ready_count = omega arith;
          blocked_count = c.blocked_count;
          cpu_count = c.cpu_count;
          degree_count = c.degree_count;
          instance_count = c.instance_count;
          queue_count = c.queue_count;
        })
  short_lem degree k long at_cpu fifo c =
      Ends-down _ (Balanced degree) k.sem_cpu_available _ _ (λ z. z)
        (λ m e.
          Ends-map _ (Balanced degree)
            (move_process_to_exec lib (record k { sem_cpu_available = m })) _
            (Ends-pop lib _ _ k.queue_ready _ (omega arith) (λ a rest q. record {
              new_count = c.new_count;
              ready_count = let l = ap length q in omega arith;
              blocked_count = c.blocked_count;
              cpu_count = omega (arith, length-push lib k.queue_exec a);
              degree_count = let l = ap length q in omega (arith, length-push lib k.queue_exec a);
              instance_count = c.instance_count;
              queue_count = c.queue_count;
            })))
  short_lem degree k long at_cpu round_robin c =
      Ends-down _ (Balanced degree) k.sem_cpu_available _ _ (λ z. z)
        (λ m e.
          Ends-map _ (Balanced degree)
            (move_process_to_exec lib (record k { sem_cpu_available = m })) _
            (Ends-pop lib _ _ k.queue_ready _ (omega arith) (λ a rest q. record {
              new_count = c.new_count;
              ready_count = let l = ap length q in omega arith;
              blocked_count = c.blocked_count;
              cpu_count = omega (arith, length-push lib k.queue_exec a);
              degree_count = let l = ap length q in omega (arith, length-push lib k.queue_exec a);
              instance_count = c.instance_count;
              queue_count = c.queue_count;
            })))
  short_lem degree k long at_quantum algorithm c = record {
    new_count = c.new_count;
    ready_count = c.ready_count;
    blocked_count = c.blocked_count;
    cpu_count = c.cpu_count;
    degree_count = c.degree_count;
    instance_count = c.instance_count;
    queue_count = c.queue_count;
  }

  -- Where the counts fit the queues and the tokens of the planners, a step of `long_term_planner`
  -- waits only when the semaphore that it is at has the count 0, otherwise leaves them fitting,
  -- and never pops an empty queue.
  pub long_term_step-Balanced :
      (degree : ℕ) (s : System)
      → Balanced degree s
      → Ends (long_count s.kernel s.long ≡ 0) (Balanced degree) (long_term_step lib s)
  long_term_step-Balanced degree s b = long_lem degree s.kernel s.long s.short s.algorithm b

  -- Where the counts fit the queues and the tokens of the planners, a step of the short term
  -- planner, with FIFO or round robin, waits only when the semaphore that it is at has the count
  -- 0, otherwise leaves them fitting, and never pops an empty queue.
  pub short_term_step-Balanced :
      (degree : ℕ) (s : System)
      → Balanced degree s
      → Ends (short_count s.kernel s.short ≡ 0) (Balanced degree) (short_term_step lib s)
  short_term_step-Balanced degree s b = short_lem degree s.kernel s.long s.short s.algorithm b
