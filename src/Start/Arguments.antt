-- ===== src/Start/Arguments.antt =====
-- The arguments of the programs, which live in environment variables (src/common/args.rs). A variable
-- whose name or value is not Unicode is left out of the environment here.
pub mod Precedence
use Prim.Native.Char.{code}
use Prim.Native.String.{◌++◌}
use openuu_server.Prelude.{
  ℕ, String, Bool, true, false, Option, none, some, List, [], ◌∷◌, ◌==◌, ltb, keep, if◌then◌else◌,
  eqb, String_discrete,
}
use openuu_server.Prelude.Map.{get, insert}

abbrev pub Environment : Type 0
Environment = List (String × String)

-- `str::to_uppercase` and `str::to_lowercase`, by the tables of Unicode
pub record Cases : Type 0 where
  pub to_uppercase : String → String
  pub to_lowercase : String → String

-- `replace` of one character, by its code
unfoldable pub replace : ℕ → String → String → String
replace from to String.[] = ""
replace from to (String.◌∷◌ c s) =
    let rest = replace from to s in if code c == from then to ++ rest else String.◌∷◌ c rest

-- the order of strings, by the codes of their characters
unfoldable pub string_le : String → String → Bool
string_le String.[] t = true
string_le (String.◌∷◌ c s) String.[] = false
string_le (String.◌∷◌ c s) (String.◌∷◌ d t) =
    let rest = string_le s t in if code c == code d then rest else ltb (code c) (code d)

abbrev pub or_else {ℓ} : {A : Type ℓ} → Option A → Option A → Option A
or_else none b = b
or_else (some a) b = some a

-- the first after sorting by the key
abbrev smaller : String × String → Option (String × String) → String × String
smaller x none = x
smaller (k, v) (some (j, u)) = if string_le k j then (k, v) else (j, u)

unfoldable pub least : List (String × String) → Option (String × String)
unfolding string_le
least [] = none
least (x ∷ xs) = some (smaller x (least xs))

abbrev value_of : Option (String × String) → Option String
value_of none = none
value_of (some (k, v)) = some v

module _ (t : Cases) where
  unfoldable pub arg_name : String → String
  unfolding replace
  arg_name name = replace b'_' "-" (t.to_uppercase name)

  unfoldable pub set_arg : String → String → Environment → Environment
  unfolding arg_name insert
  set_arg name value env = insert String_discrete (arg_name name) value env

  abbrev scanned : String → Environment → Option String
  scanned dashed env = value_of (least (keep (λ x. eqb String_discrete (arg_name x.0) dashed) env))

  unfoldable pub get_arg_opt : String → Environment → Option String
  unfolding arg_name get least keep replace
  get_arg_opt name env =
      let dashed = arg_name name in
      let underscored = replace b'-' "_" dashed in
      or_else (get String_discrete dashed env) (
        or_else (get String_discrete underscored env) (
          or_else (get String_discrete (t.to_lowercase dashed) env)
            (or_else (get String_discrete (t.to_lowercase underscored) env) (scanned dashed env))))

  abbrev or_default : String → Option String → String
  or_default default none = default
  or_default default (some v) = v

  unfoldable pub get_arg_or : String → String → Environment → String
  unfolding get_arg_opt
  get_arg_or name default env = or_default default (get_arg_opt name env)

  unfoldable pub get_arg : String → Environment → String
  unfolding get_arg_or
  get_arg name env = get_arg_or name "" env

  unfoldable pub set_all : List (String × String) → Environment → Environment
  unfolding set_arg
  set_all [] env = env
  set_all ((k, v) ∷ args) env = set_all args (set_arg k v env)

  -- The general sections of .env and of the file of --config, [] where there is none, and then the
  -- first value of each argument of the command line.
  unfoldable pub init_args :
      List (String × String)
      → List (String × String)
      → List (String × String)
      → Environment
      → Environment
  unfolding set_all
  init_args dotenv config args env = set_all args (set_all config (set_all dotenv env))
