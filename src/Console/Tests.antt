-- ===== src/Console/Tests.antt =====
-- A session at the menu.
use old_so_tp.Prelude.{◌≡◌, false, true, none, List, [], ◌∷◌, ◌++◌}
use old_so_tp.Prelude.CString.{CString, codes}
use old_so_tp.Prelude.Decimal.{atoi}
use old_so_tp.Prelude.Int.{to_word}
use old_so_tp.Prelude.Run.{done}
use old_so_tp.Kernel.Connection.{create_process, finish_process, stop_planning}
use old_so_tp.Console.{error, translate_command, interactive_menu}
use old_so_tp.Console.Menu.{
  creates, finishes, stops, translate_command-line, interactive_menu-typed,
}

translate_command-line_example : translate_command (codes "SALIR" ++ 10 ∷ []) ≡ error
translate_command-line_example = translate_command-line (codes "SALIR")

abbrev split : CString → List CString
split line = line ∷ []

interactive_menu-typed_example :
    interactive_menu split
      (λ line. line)
      (λ path. none)
      (codes "1" ∷ codes "prog" ∷ codes "4" ∷ codes "2" ∷ codes "0" ∷ codes "7" ∷ [])
      (record { sent = []; closed = false })
    ≡ done (record {
      sent =
          create_process (record { path = codes "prog" }) ∷ stop_planning ∷ finish_process 0 ∷ [];
      closed = true;
    })
unfolding atoi to_word
interactive_menu-typed_example =
    interactive_menu-typed split (λ line. line) (λ path. none)
      (creates (codes "prog") ∷ stops ∷ finishes (codes "0") ∷ []) []
