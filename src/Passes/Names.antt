-- ===== src/Passes/Names.antt =====
-- Names of functions and modules as lists of character codes, the searches in them, and the list of
-- functions by category (passes/include/kspecem/KSpecEmABIList.h).
pub mod AbiList
pub mod Matching
use kasper.Prelude.{ℕ, zero, suc, Bool, true, false, ◌&&◌, ◌||◌, List, [], ◌∷◌, ◌==◌, if◌then◌else◌}

abbrev pub Name : Type 0
Name = List ℕ

-- What a C string constant with these characters denotes: it ends at the first NUL.
abbrev pub c_string : Name → Name
c_string [] = []
c_string (zero ∷ s) = []
c_string (suc c ∷ s) = suc c ∷ c_string s

abbrev pub same_name : Name → Name → Bool
same_name [] [] = true
same_name [] (d ∷ t) = false
same_name (c ∷ s) [] = false
same_name (c ∷ s) (d ∷ t) = c == d && same_name s t

-- `text.startswith(part)`, also `text.rfind(part, 0) == 0`
abbrev pub starts_with : (part text : Name) → Bool
starts_with [] text = true
starts_with (c ∷ part) [] = false
starts_with (c ∷ part) (d ∷ text) = c == d && starts_with part text

-- `text.contains(part)`, also `text.rfind(part) != npos`
abbrev pub contains : (part text : Name) → Bool
contains part [] = starts_with part []
contains part (d ∷ text) = starts_with part (d ∷ text) || contains part text

-- `text.take_front(text.find(part))` if `part` occurs, else the whole text.
abbrev pub before_first : (part text : Name) → Name
before_first part [] = []
before_first part (d ∷ text) =
    let rest = before_first part text in if starts_with part (d ∷ text) then [] else d ∷ rest

-- `text.drop_front(part.length())`
abbrev pub drop_front : (part text : Name) → Name
drop_front [] text = text
drop_front (c ∷ part) [] = []
drop_front (c ∷ part) (d ∷ text) = drop_front part text
