-- ===== src/Shared/Operation/Tests.antt =====
-- Concrete codes.
use old_so_tp.Prelude.{refl, ◌≡◌, false, some}
use old_so_tp.Prelude.CString.{codes, str_eq}
use old_so_tp.Shared.Operation.{execute_process, get_frame, code_of, operation_of, translate_header}
use old_so_tp.Shared.Operation.Names.{translate_header-code_of}

twelve : operation_of 12 ≡ some execute_process
unfolding operation_of code_of
twelve = refl

translate_header-code_of_example : str_eq (translate_header 29) (codes "GET_FRAME") ≡ false
unfolding code_of
translate_header-code_of_example = translate_header-code_of get_frame
