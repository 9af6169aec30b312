-- ===== src/Passes/Names/AbiList.antt =====
-- passes/include/kspecem/KSpecEmABIList.h: whether a function, an alias or a module is listed in a
-- category. LLVM's SpecialCaseList, which reads the file of names, is the parameter `in_section`.
use kasper.Prelude.{Bool, ◌||◌, if◌then◌else◌, codes}
use kasper.Passes.Names.{Name, starts_with, before_first, drop_front}

-- The value type of a global, as far as it is read: a function, a named struct, or another type.
pub data ValueType : Type 0 where
  function_type : ValueType
  named_struct : Name → ValueType
  unnamed : ValueType

pub record GlobalAlias : Type 0 where
  pub alias_name : Name
  pub value_type : ValueType

unfoldable pub get_global_type_string : ValueType → Name
get_global_type_string function_type = codes "<unknown type>"
get_global_type_string (named_struct n) = n
get_global_type_string unnamed = codes "<unknown type>"

pub record KSpecEmAbiList : Type 0 where
  pub in_section : (section part query category : Name) → Bool
  pub func_prefix : Name

abbrev pub drop_prefix : KSpecEmAbiList → Name → Name
drop_prefix l n = if starts_with l.func_prefix n then drop_front l.func_prefix n else n

unfoldable pub is_module_in : KSpecEmAbiList → (module_identifier category : Name) → Bool
is_module_in l module_identifier category =
    l.in_section (codes "dataflow") (codes "src") (drop_prefix l module_identifier) category

unfoldable pub is_function_in :
    KSpecEmAbiList → (module_identifier function_name category : Name) → Bool
unfolding is_module_in
is_function_in l module_identifier function_name category =
    is_module_in l module_identifier category
    || l.in_section (codes "dataflow") (codes "fun")
        (drop_prefix l (before_first (codes ".llvm.") function_name)) category

unfoldable pub is_alias_in :
    KSpecEmAbiList → (module_identifier : Name) → GlobalAlias → (category : Name) → Bool
unfolding is_module_in get_global_type_string
is_alias_in l module_identifier a category =
    is_module_in l module_identifier category || elim a.value_type [
      | function_type ↦
          l.in_section (codes "dataflow") (codes "fun") (drop_prefix l a.alias_name) category
      | _ ↦
          l.in_section (codes "dataflow") (codes "global") (drop_prefix l a.alias_name) category
          || l.in_section (codes "dataflow") (codes "type")
              (drop_prefix l (get_global_type_string a.value_type)) category
    ]
