-- ===== src/Utils/Env.antt =====
-- src/utils/env.h: `get_env_or_throw`.
pub mod Architecture
use Prim.Native.String.{String}
use trader_cpp.Base.{
  Option, none, some, [], ◌∷◌, Text, Outcome, ok, throw, runtime_error, envvar_not_defined,
  empty_envvar,
}

-- `std::getenv`
abbrev pub Environment : Type 0
Environment = String → Option Text

abbrev pub nonempty : Text → Outcome Text
nonempty [] = throw (runtime_error empty_envvar)
nonempty (c ∷ s) = ok (c ∷ s)

unfoldable pub get_env_or_throw : Environment → String → Outcome Text
get_env_or_throw env key = elim (env key) [
  | none ↦ throw (runtime_error envvar_not_defined)
  | some val ↦ nonempty val
]
