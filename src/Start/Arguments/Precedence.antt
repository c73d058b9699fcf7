-- ===== src/Start/Arguments/Precedence.antt =====
-- Which value an argument has (src/common/args.rs).
use openuu_server.Prelude.{
  String, Option, none, some, List, [], ◌∷◌, ◌≡◌, refl, ap, sym, ◌∙◌, arith, if◌then◌else◌, eqb,
  String_discrete,
}
use openuu_server.Prelude.Map.{get, get-insert}
use openuu_server.Start.Arguments.{
  Environment, Cases, or_else, arg_name, set_arg, get_arg_opt, set_all, init_args,
}

module _ (t : Cases) where
  -- the last value that is given under a spelling of this name
  unfoldable pub last_value : String → List (String × String) → Option String
  last_value dashed [] = none
  last_value dashed ((k, v) ∷ args) =
      or_else (last_value dashed args)
        (if eqb String_discrete (arg_name t k) dashed then some v else none)

  or_else_assoc : (a b c : Option String) → or_else (or_else a b) c ≡ or_else a (or_else b c)
  or_else_assoc none b c = refl
  or_else_assoc (some x) b c = refl

  get-set_all :
      (dashed : String) (args : List (String × String)) (env : Environment)
      → get String_discrete dashed (set_all t args env)
        ≡ or_else (last_value dashed args) (get String_discrete dashed env)
  unfolding set_all set_arg last_value
  get-set_all dashed [] env = refl
  get-set_all dashed ((k, v) ∷ args) env =
      get-set_all dashed args (set_arg t k v env)
      ∙ ap (or_else (last_value dashed args))
          (get-insert String_discrete (arg_name t k) dashed v env ∙ by_name)
      ∙ sym (
          or_else_assoc (last_value dashed args)
            (if eqb String_discrete (arg_name t k) dashed then some v else none)
            (get String_discrete dashed env))
    where
      by_name :
          (if eqb String_discrete (arg_name t k) dashed
            then some v
            else get String_discrete dashed env)
          ≡ or_else
              (if eqb String_discrete (arg_name t k) dashed then some v else none)
              (get String_discrete dashed env)
      by_name = ground arith

  first_given : {v : String} (o rest : Option String) → o ≡ some v → or_else o rest ≡ some v
  first_given none rest h = cc
  first_given (some x) rest h = h

  layers :
      {v : String} (a b c d : Option String)
      → or_else a (or_else b c) ≡ some v
      → or_else a (or_else b (or_else c d)) ≡ some v
  layers (some x) b c d h = h
  layers none (some y) c d h = h
  layers none none c d h = first_given c d h

  -- An argument, however its name is spelled in dashes, underscores and case, has the last value that
  -- the command line gives it, or else the file of --config, or else .env, whatever the environment
  -- held before.
  pub init_args-get_arg_opt :
      (name v : String) (dotenv config args : List (String × String)) (env : Environment)
      → let dashed = arg_name t name in
        or_else
            (last_value dashed args)
            (or_else (last_value dashed config) (last_value dashed dotenv))
          ≡ some v
        → get_arg_opt t name (init_args t dotenv config args env) ≡ some v
  unfolding init_args get_arg_opt
  init_args-get_arg_opt name v dotenv config args env given =
      let dashed = arg_name t name in
      first_given _ _ (
        get-set_all dashed args (set_all t config (set_all t dotenv env))
        ∙ ap (or_else (last_value dashed args)) (
            get-set_all dashed config (set_all t dotenv env)
            ∙ ap (or_else (last_value dashed config)) (get-set_all dashed dotenv env))
        ∙ layers (last_value dashed args) (last_value dashed config) (last_value dashed dotenv)
            (get String_discrete dashed env) given)
