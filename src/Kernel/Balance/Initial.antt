-- ===== src/Kernel/Balance/Initial.antt =====
-- The invariants hold when the kernel starts.
use old_so_tp.Prelude.{
  ℕ, suc, ◌≤◌, ◌≡◌, refl, ap, ◌∙◌, sym, subst, List, [], ◌∷◌, ◌++◌, length, length-append, arith,
  All, leb,
}
use old_so_tp.Prelude.Int.{pos}
use old_so_tp.Prelude.CString.{CString}
use old_so_tp.Commons.{Commons}
use old_so_tp.Commons.Lists.{total}
use old_so_tp.Shared.Process.{Pcb}
use old_so_tp.Kernel.State.{Kernel}
use old_so_tp.Kernel.Resources.{init_loop, init_resources}
use old_so_tp.Kernel.Start.{
  globals, init_queues, init_semaphores_process, init_semaphores_planners, start_kernel,
}
use old_so_tp.Kernel.Balance.{Counts, settled, Returns}
use old_so_tp.Kernel.Balance.Rules.{Ends-map, Ends-weaken}
use old_so_tp.Kernel.Occurrences.{count, count_all, one-le}
use old_so_tp.Kernel.Placed.{Placed}

abbrev IsEmpty : List ℕ → Type 0
IsEmpty q = q ≡ []

-- No process is in a queue, and each resource has its queue and its instances.
pub record Idle (k : Kernel) : Type 0 where
  pub no_new : IsEmpty k.queue_new
  pub no_ready : IsEmpty k.queue_ready
  pub no_exec : IsEmpty k.queue_exec
  pub no_blocked : All IsEmpty k.list_of_queue_blocked
  pub instance_count : length k.all_resources_instances ≡ length k.all_resources
  pub queue_count : length k.list_of_queue_blocked ≡ length k.all_resources

All-snoc : (qs : List (List ℕ)) → All IsEmpty qs → All IsEmpty (qs ++ [] ∷ [])
All-snoc [] h = (refl, tt)
All-snoc (q ∷ qs) h = (h.0, All-snoc qs h.1)

total-empty : (qs : List (List ℕ)) → All IsEmpty qs → total qs ≡ 0
total-empty [] h = refl
total-empty (q ∷ qs) h = let e = ap length h.0 in let rest = total-empty qs h.1 in omega arith

count_all-empty : (qs : List (List ℕ)) (a : ℕ) → All IsEmpty qs → count_all a qs ≡ 0
count_all-empty [] a h = refl
count_all-empty (q ∷ qs) a h =
    let e = ap (count a) h.0 in let rest = count_all-empty qs a h.1 in omega arith

module _ (lib : Commons) where
  length-add : {A : Type 0} (xs : List A) (a : A) → length (lib.list_add xs a) ≡ suc (length xs)
  length-add xs a = ap length (lib.list_add_lem xs a) ∙ length-append xs (a ∷ []) ∙ omega arith

  init_loop-Idle :
      (k : Kernel) (resources instances : List CString)
      → Idle k
      → length resources ≤ length instances
      → Returns Idle (init_loop lib k resources instances)
  unfolding init_loop
  init_loop-Idle k [] instances i h = i
  init_loop-Idle k (r ∷ resources) [] i h = absurd (omega arith)
  init_loop-Idle k (r ∷ resources) (n ∷ instances) i h =
      let by_instances = i.instance_count in
      let by_queues = i.queue_count in
      init_loop-Idle
        (record k {
          list_of_queue_blocked = lib.list_add k.list_of_queue_blocked [];
          all_resources = lib.list_add k.all_resources r;
          all_resources_instances = lib.list_add k.all_resources_instances n;
        })
        resources instances
        (record {
          no_new = i.no_new;
          no_ready = i.no_ready;
          no_exec = i.no_exec;
          no_blocked =
              subst (All IsEmpty) (sym (lib.list_add_lem k.list_of_queue_blocked []))
                (All-snoc k.list_of_queue_blocked i.no_blocked);
          instance_count =
              length-add k.all_resources_instances n
              ∙ ap suc by_instances
              ∙ sym (length-add k.all_resources r);
          queue_count =
              length-add k.list_of_queue_blocked []
              ∙ ap suc by_queues
              ∙ sym (length-add k.all_resources r);
        })
        (omega arith)

  -- The counts fit the queues, and each process is at one place.
  pub record Sound (degree long short : ℕ) (k : Kernel) : Type 0 where
    pub counts : Counts settled degree long short k
    pub placed : Placed [] k

  Idle-Sound :
      (degree : ℕ) (k : Kernel)
      → Idle k
      → Sound degree 0 0 (init_semaphores_planners (pos degree) (init_semaphores_process k))
  unfolding init_semaphores_planners init_semaphores_process
  Idle-Sound degree k i =
      let a = ap length i.no_new in
      let b = ap length i.no_ready in
      let c = ap length i.no_exec in
      let d = total-empty k.list_of_queue_blocked i.no_blocked in
      record {
        counts = record {
          new_count = omega arith;
          ready_count = omega arith;
          blocked_count = omega arith;
          cpu_count = omega arith;
          degree_count = omega arith;
          instance_count = i.instance_count;
          queue_count = i.queue_count;
        };
        placed = λ x.
            let a' = ap (count x) i.no_new in
            let b' = ap (count x) i.no_ready in
            let c' = ap (count x) i.no_exec in
            let d' = count_all-empty k.list_of_queue_blocked x i.no_blocked in
            let free = one-le (leb k.next_address x) in
            record {
              once = omega arith;
              in_new = omega arith;
              in_ready = omega arith;
              in_exec = omega arith;
              in_blocked = omega arith;
            };
      }

  -- With at least as many counts of instances as resources in the configuration and a degree of
  -- multiprogramming that is not negative, the start of the kernel, up to its connections, returns
  -- with the counts of the semaphores fitting the queues, for the configured degree of
  -- multiprogramming and planners that hold no token, and with each control block in one queue at
  -- most, which is the one of its state, or not allocated.
  pub start_kernel-Sound :
      (heap : ℕ → Pcb) (degree : ℕ) (resources instances : List CString)
      → length resources ≤ length instances
      → Returns (Sound degree 0 0) (start_kernel lib heap (pos degree) resources instances)
  unfolding start_kernel init_resources init_queues
  start_kernel-Sound heap degree resources instances h =
      Ends-map ⊥ (Sound degree 0 0) (init_loop lib (globals heap) resources instances)
        (λ k. init_semaphores_planners (pos degree) (init_semaphores_process k))
        (Ends-weaken ⊥ Idle
          (λ k.
            Sound degree 0 0 (init_semaphores_planners (pos degree) (init_semaphores_process k)))
          (init_loop lib (globals heap) resources instances) (Idle-Sound degree)
          (init_loop-Idle (globals heap) resources instances
            (record {
              no_new = refl;
              no_ready = refl;
              no_exec = refl;
              no_blocked = tt;
              instance_count = refl;
              queue_count = refl;
            })
            h))
