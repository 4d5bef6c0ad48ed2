-- ===== src/Commons/Reference.antt =====
-- An implementation of the interface, by which the model runs on concrete data.
use old_so_tp.Prelude.{refl, [], ◌∷◌, ◌++◌, length, get_elem?, set, take, drop}
use old_so_tp.Prelude.Decimal.{show_int, atoi-show_int}
use old_so_tp.Commons.{
  Commons, remove_at, insert_at, find_first, each, remove_first, first_of_queue,
}

abbrev pub reference : Commons
reference = record {
  list_size = λ xs. length xs;
  list_add = λ xs a. xs ++ a ∷ [];
  list_get = λ xs i. get_elem? xs i;
  list_remove = λ xs i. (get_elem? xs i, remove_at xs i);
  list_add_in_index = λ xs i a. insert_at xs i a;
  list_replace = λ xs i a. set xs i a;
  list_find = λ xs p. find_first p xs;
  list_iterate = λ xs f s. each f xs s;
  list_take_and_remove = λ xs n. (take n xs, drop n xs);
  list_remove_element = λ xs a. remove_first xs a;
  queue_push = λ xs a. xs ++ a ∷ [];
  queue_pop = λ xs. first_of_queue xs;
  string_itoa = show_int;
  list_size_lem = λ xs. refl;
  list_add_lem = λ xs a. refl;
  list_get_lem = λ xs i. refl;
  list_remove_lem = λ xs i. refl;
  list_add_in_index_lem = λ xs i a h. refl;
  list_replace_lem = λ xs i a. refl;
  list_find_lem = λ xs p. refl;
  list_iterate_lem = λ xs f s. refl;
  list_take_and_remove_lem = λ xs n h. refl;
  list_remove_element_lem = λ xs a. refl;
  queue_push_lem = λ xs a. refl;
  queue_pop_lem = λ xs. refl;
  atoi-string_itoa = atoi-show_int;
}
