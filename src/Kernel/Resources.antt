-- ===== src/Kernel/Resources.antt =====
-- kernel/src/deadlocks.c: the resources with their instances, and who holds them.
pub mod Accounts
mod Tests
use old_so_tp.Prelude.{ℕ, zero, suc, ◌+◌, Option, List, [], ◌∷◌, if◌then◌else◌}
use old_so_tp.Prelude.Int.{ℤ, pos, negsuc, ◌+ℤ◌, wrap_int}
use old_so_tp.Prelude.CString.{CString, str_eq}
use old_so_tp.Prelude.Decimal.{atoi}
use old_so_tp.Commons.{Commons}
use old_so_tp.Shared.Process.{Pcb}
use old_so_tp.Kernel.State.{Kernel, Run, done, crash, ◌>>=◌, not_null}

module _ (lib : Commons) where
  open lib use {list_size, list_add, list_get, list_replace, list_find, list_remove, string_itoa}

  -- The loop over the arrays of the configuration, which the library reads as arrays of strings;
  -- both have the length of `resources`, or a string of `resources_instances` is null.
  unfoldable pub init_loop : Kernel → List CString → List CString → Run Kernel
  init_loop k [] instances = done k
  init_loop k (r ∷ resources) [] = crash
  init_loop k (r ∷ resources) (n ∷ instances) =
      init_loop
        (record k {
          list_of_queue_blocked = list_add k.list_of_queue_blocked [];
          all_resources = list_add k.all_resources r;
          all_resources_instances = list_add k.all_resources_instances n;
        })
        resources instances

  unfoldable pub init_resources : Kernel → List CString → List CString → Run Kernel
  unfolding init_loop
  init_resources k resources instances =
      init_loop
        (record k { list_of_queue_blocked = []; all_resources = []; all_resources_instances = [] })
        resources instances

  -- The loop of `_modify_resource_instance` from an index on, with the rounds that are left.
  unfoldable pub modify_loop : ℕ → Kernel → ℕ → CString → ℤ → Run Kernel
  modify_loop zero k index resource value = done k
  modify_loop (suc left) k index resource value = do
    candidate ← not_null (list_get k.all_resources index)
    let rest = modify_loop left k (suc index) resource value
    let hit = (do
      initial ← not_null (list_get k.all_resources_instances index)
      let changed = string_itoa (wrap_int (atoi initial +ℤ value))
      done (record k {
        all_resources_instances = list_replace k.all_resources_instances index changed;
      }))
    (if str_eq candidate resource then hit else rest)

  unfoldable pub modify_resource_instance : Kernel → CString → ℤ → Run Kernel
  unfolding modify_loop
  modify_resource_instance k resource value =
      modify_loop (list_size k.all_resources_instances) k 0 resource value

  unfoldable pub add_resource_instance : Kernel → CString → Run Kernel
  add_resource_instance k resource = modify_resource_instance k resource (pos 1)

  unfoldable pub remove_resource_instance : Kernel → CString → Run Kernel
  remove_resource_instance k resource = modify_resource_instance k resource (negsuc 0)

  unfoldable pub find_resource : List CString → CString → Option CString
  find_resource list_to_find resource_requested =
      list_find list_to_find (λ element. str_eq element resource_requested)

  -- Without a match the function ends with no `return`.
  unfoldable pub available_loop : ℕ → Kernel → ℕ → CString → Run ℤ
  available_loop zero k index resource = crash
  available_loop (suc left) k index resource = do
    candidate ← not_null (list_get k.all_resources index)
    let rest = available_loop left k (suc index) resource
    let hit = (do
      instances ← not_null (list_get k.all_resources_instances index)
      done (atoi instances))
    (if str_eq candidate resource then hit else rest)

  unfoldable pub quantity_resource_instance_available : Kernel → CString → Run ℤ
  unfolding available_loop
  quantity_resource_instance_available k resource =
      available_loop (list_size k.all_resources) k 0 resource

  unfoldable pub retained_loop : ℕ → List CString → ℕ → CString → ℕ → Run ℕ
  retained_loop zero held index resource count = done count
  retained_loop (suc left) held index resource count = do
    candidate ← not_null (list_get held index)
    retained_loop left held (suc index) resource
        (if str_eq candidate resource then count + 1 else count)

  unfoldable pub quantity_resource_instance_retained : Pcb → CString → Run ℕ
  unfolding retained_loop
  quantity_resource_instance_retained process resource =
      retained_loop (list_size process.resources) process.resources 0 resource 0

  unfoldable pub free_loop : ℕ → Kernel → List CString → ℕ → Run Kernel
  free_loop zero k held index = done k
  free_loop (suc left) k held index = do
    resource ← not_null (list_get held index)
    k' ← add_resource_instance k resource
    free_loop left k' held (suc index)

  unfoldable pub free_resources_retained : Kernel → ℕ → Run Kernel
  unfolding free_loop
  free_resources_retained k a = free_loop (list_size (k.heap a).resources) k (k.heap a).resources 0
