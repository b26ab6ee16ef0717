-- ===== src/Utils/Types.antt =====
-- src/utils/types.h: readable names of types, for a compiler of GNU. Nothing in src/ calls it.
use trader_cpp.Base.{ℕ, Option, none, some, Text, if◌then◌else◌, ◌==◌}

-- What `abi::__cxa_demangle` returns for a text: the status, and the result unless it is a null pointer.
abbrev pub Demangle : Type 0
Demangle = Text → ℕ × Option Text

abbrev pub chosen : ℕ → Option Text → Text → Text
chosen status none mangled = mangled
chosen status (some demangled) mangled = if status == 0 then demangled else mangled

unfoldable pub unmangle : Demangle → Text → Text
unmangle demangle mangled_string =
    let (status, demangled) = demangle mangled_string in chosen status demangled mangled_string

-- For `typeid(T).name()`.
unfoldable pub type_name : Demangle → Text → Text
unfolding unmangle
type_name demangle mangled = unmangle demangle mangled
