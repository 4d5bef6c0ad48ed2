-- ===== src/Kernel/Resources/Tests.antt =====
-- A kernel with two resources.
use old_so_tp.Prelude.{◌≡◌, refl, [], ◌∷◌}
use old_so_tp.Prelude.Int.{pos, negsuc, ◌+ℤ◌, wrap_int}
use old_so_tp.Prelude.CString.{codes, str_eq}
use old_so_tp.Prelude.Decimal.{atoi}
use old_so_tp.Commons.Reference.{reference}
use old_so_tp.Kernel.State.{Kernel, done}
use old_so_tp.Kernel.Resources.{
  modify_resource_instance, available_loop, quantity_resource_instance_available,
}
use old_so_tp.Kernel.Resources.Accounts.{modify_resource_instance-available}

abbrev stock : Kernel
stock = record {
  heap = λ a. record {
    pid = pos a;
    program_counter = pos 0;
    quantum = pos 0;
    size = pos 0;
    cpu_register = [];
    resources = [];
    table_pages = pos 0;
    path = [];
    state = 0;
    client_socket = pos 9;
  };
  next_address = 0;
  queue_new = [];
  queue_ready = [];
  queue_exec = [];
  list_of_queue_blocked = [] ∷ [] ∷ [];
  all_resources = codes "DISCO" ∷ codes "RED" ∷ [];
  all_resources_instances = codes "1" ∷ codes "2" ∷ [];
  sem_process_new = 0;
  sem_process_ready = 0;
  sem_process_blocked = 0;
  sem_cpu_available = 1;
  sem_multiprogramming_degree = 4;
  sem_short_term_planner = 0;
  sem_long_term_planner = 0;
  mutex_stopping_planner = 0;
  id_to_assign = 0;
  sent = [];
  interrupts = [];
  deadlocks = [];
}

red_available : quantity_resource_instance_available reference stock (codes "RED") ≡ done (pos 2)
unfolding quantity_resource_instance_available available_loop str_eq atoi
red_available = refl

modify_resource_instance-available_example :
    (k' : Kernel) × (modify_resource_instance reference stock (codes "RED") (negsuc 0) ≡ done k')
    × (quantity_resource_instance_available reference k' (codes "RED")
        ≡ done (wrap_int (pos 2 +ℤ negsuc 0)))
modify_resource_instance-available_example =
    modify_resource_instance-available reference stock (codes "RED") (negsuc 0) (pos 2) refl
      red_available
