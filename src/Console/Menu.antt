-- ===== src/Console/Menu.antt =====
-- What the menu and the commands do.
use old_so_tp.Prelude.{
  ℕ, zero, suc, ◌≤◌, ◌≡◌, refl, sym, ap, subst, ◌∙◌, Bool, true, false, not, Option, List, [], ◌∷◌,
  ◌++◌, map, length, append_assoc, append-nil, arith, Bool-cases, inl, inr, ◌==◌, ◌&&◌,
}
use old_so_tp.Prelude.Int.{to_word}
use old_so_tp.Prelude.CString.{CString, codes, str_eq}
use old_so_tp.Prelude.Decimal.{atoi}
use old_so_tp.Prelude.Run.{Run, done}
use old_so_tp.Kernel.Connection.{
  ConsoleRequest, create_process, finish_process, stop_planning, start_planning, show_all_processes,
}
use old_so_tp.Console.{
  Console, error, translate_command, menu_choice, menu_loop, start_process, interactive_menu,
}

abbrev lacks : ℕ → CString → Bool
lacks b [] = true
lacks b (c ∷ cs) = not (b == c) && lacks b cs

str_eq-snoc : (s t : CString) (b : ℕ) → lacks b t ≡ true → str_eq (s ++ b ∷ []) t ≡ false
unfolding str_eq
str_eq-snoc [] [] b h = refl
str_eq-snoc [] (c ∷ cs) b h = elim (Bool-cases (b == c)) [
  | inl same ↦
      let clash : not true && lacks b cs ≡ true = subst (λ x. not x && lacks b cs ≡ true) same h in
      cc
  | inr other ↦ rw other refl
]
str_eq-snoc (x ∷ xs) [] b h = refl
str_eq-snoc (x ∷ xs) (c ∷ cs) b h = elim (Bool-cases (b == c)) [
  | inl same ↦
      let clash : not true && lacks b cs ≡ true = subst (λ x. not x && lacks b cs ≡ true) same h in
      cc
  | inr other ↦
      let later : lacks b cs ≡ true = subst (λ x. not x && lacks b cs ≡ true) other h in
      elim (Bool-cases (x == c)) [
        | inl hit ↦ rw hit (str_eq-snoc xs cs b later)
        | inr miss ↦ rw miss refl
      ]
]

-- A text that ends with a newline, as a line that is read from a script does, is no command for
-- `translate_command`.
pub translate_command-line : (s : CString) → translate_command (s ++ 10 ∷ []) ≡ error
unfolding translate_command
translate_command-line s = rw (str_eq-snoc s (codes "INICIAR_PROCESO") 10 refl) (
    rw (str_eq-snoc s (codes "FINALIZAR_PROCESO") 10 refl) (
      rw (str_eq-snoc s (codes "DETENER_PLANIFICACION") 10 refl) (
        rw (str_eq-snoc s (codes "INICIAR_PLANIFICACION") 10 refl) (
          rw (str_eq-snoc s (codes "EXECUTE_SCRIPT") 10 refl) (
            rw (str_eq-snoc s (codes "PROCESO_ESTADO") 10 refl)
              (rw (str_eq-snoc s (codes "SALIR") 10 refl) refl))))))

-- A choice of the menu, with the text that it asks for.
pub data Choice : Type 0 where
  creates finishes : CString → Choice
  starts stops lists : Choice

-- The lines that are typed for some choices, and at last the choice that ends the program.
abbrev pub typed : List Choice → List CString
typed [] = codes "7" ∷ []
typed (creates path ∷ choices) = codes "1" ∷ path ∷ typed choices
typed (finishes id ∷ choices) = codes "2" ∷ id ∷ typed choices
typed (starts ∷ choices) = codes "3" ∷ typed choices
typed (stops ∷ choices) = codes "4" ∷ typed choices
typed (lists ∷ choices) = codes "6" ∷ typed choices

-- What the kernel is asked for.
abbrev pub asks : Choice → ConsoleRequest
asks (creates path) = create_process (record { path = path })
asks (finishes id) = finish_process (to_word (atoi id))
asks starts = start_planning
asks stops = stop_planning
asks lists = show_all_processes

abbrev open_with : List ConsoleRequest → Console
open_with sent = record { sent = sent; closed = false }

typed-length : (choices : List Choice) → 1 ≤ length (typed choices)
typed-length [] = omega arith
typed-length (creates path ∷ choices) = omega arith
typed-length (finishes id ∷ choices) = omega arith
typed-length (starts ∷ choices) = omega arith
typed-length (stops ∷ choices) = omega arith
typed-length (lists ∷ choices) = omega arith

abbrev closed_with : List ConsoleRequest → Run Console
closed_with sent = done (record { sent = sent; closed = true })

module _ (string_split : CString → List CString) (string_trim : CString → CString)
    (file_lines : CString → Option (List CString)) where
  menu_loop-typed :
      (fuel : ℕ) (choices : List Choice) (sent : List ConsoleRequest)
      → length (typed choices) ≤ fuel
      → menu_loop string_split string_trim file_lines fuel (typed choices) (open_with sent)
        ≡ closed_with (sent ++ map asks choices)
  unfolding menu_loop menu_choice start_process atoi
  menu_loop-typed zero choices sent h = let some_line = typed-length choices in absurd (omega arith)
  menu_loop-typed (suc fuel) [] sent h = ap closed_with (sym (append-nil sent))
  menu_loop-typed (suc fuel) (creates path ∷ choices) sent h =
      menu_loop-typed fuel choices (sent ++ asks (creates path) ∷ []) (omega arith)
      ∙ ap closed_with (append_assoc sent (asks (creates path) ∷ []) (map asks choices))
  menu_loop-typed (suc fuel) (finishes id ∷ choices) sent h =
      menu_loop-typed fuel choices (sent ++ asks (finishes id) ∷ []) (omega arith)
      ∙ ap closed_with (append_assoc sent (asks (finishes id) ∷ []) (map asks choices))
  menu_loop-typed (suc fuel) (starts ∷ choices) sent h =
      menu_loop-typed fuel choices (sent ++ start_planning ∷ []) (omega arith)
      ∙ ap closed_with (append_assoc sent (start_planning ∷ []) (map asks choices))
  menu_loop-typed (suc fuel) (stops ∷ choices) sent h =
      menu_loop-typed fuel choices (sent ++ stop_planning ∷ []) (omega arith)
      ∙ ap closed_with (append_assoc sent (stop_planning ∷ []) (map asks choices))
  menu_loop-typed (suc fuel) (lists ∷ choices) sent h =
      menu_loop-typed fuel choices (sent ++ show_all_processes ∷ []) (omega arith)
      ∙ ap closed_with (append_assoc sent (show_all_processes ∷ []) (map asks choices))

  -- Whatever sequence of the choices 1, 2, 3, 4 and 6 is typed at the menu, with their texts, and
  -- then 7, `interactive_menu` sends the kernel the requests of these choices in order and no
  -- others, and closes the program.
  pub interactive_menu-typed :
      (choices : List Choice) (sent : List ConsoleRequest)
      → interactive_menu string_split string_trim file_lines
          (typed choices)
          (record { sent = sent; closed = false })
        ≡ done (record { sent = sent ++ map asks choices; closed = true })
  unfolding interactive_menu
  interactive_menu-typed choices sent =
      menu_loop-typed (length (typed choices)) choices sent (omega arith)
