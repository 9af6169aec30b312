-- ===== src/Passes/KSpecEm/Hooks.antt =====
-- The functions that passes/kspecem/KSpecEm.cpp declares (init), with their types.
use kasper.Prelude.{List, [], ◌∷◌, codes}
use kasper.Passes.Names.{Name}
use kasper.Passes.Ir.{void, int, i8_ptr, Declaration, declare}

abbrev pub restart_func_name : Name
restart_func_name = codes "kspecem_hook_restart"

abbrev pub timer_func_name : Name
timer_func_name = codes "kspecem_hook_interrupt_timer"

abbrev pub exception_func_name : Name
exception_func_name = codes "kspecem_hook_interrupt_exception"

abbrev pub store_hook_name : Name
store_hook_name = codes "kspecem_hook_store"

abbrev pub memcpy_func_name : Name
memcpy_func_name = codes "kspecem_hook_memcpy"

unfoldable pub init : List Declaration
init =
    declare store_hook_name (i8_ptr ∷ []) void
    ∷ declare memcpy_func_name (i8_ptr ∷ int 64 ∷ []) void
    ∷ declare restart_func_name (i8_ptr ∷ int 32 ∷ i8_ptr ∷ []) (int 32)
    ∷ declare timer_func_name (i8_ptr ∷ i8_ptr ∷ []) void
    ∷ declare exception_func_name (i8_ptr ∷ i8_ptr ∷ int 32 ∷ []) (int 32)
    ∷ []
