-- ===== src/Tests/StartRuns.antt =====
-- Runs of the start of the programs and of the account command line.
use openuu_server.Prelude.{
  ℕ, ◌+◌, ◌≤◌, String, Bool, List, [], ◌∷◌, ◌≡◌, ◌≢◌, ◌⊎◌, refl, true, false, some, none, Option,
  map, arith,
}
use openuu_server.Net.{v4}
use openuu_server.Account.Admin.{AccountSummary, admin, listed}
use openuu_server.Account.Admin.Listing.{disabled_row, admin_disable-list_users}
use openuu_server.Start.Arguments.{Cases, get_arg_opt, init_args}
use openuu_server.Start.Arguments.Precedence.{init_args-get_arg_opt}
use openuu_server.Start.Listening.{
  LoopFailure, nat_listener, console_listener, listen, nat_port, ws_port, as_u16, localhost,
}
use openuu_server.Start.Listening.Loopback.{takes_local, main_task_local, parse_port_apart}
use openuu_server.Start.KeyPair.{
  Signing, SigningLaws, validate_keypair, valid, gen_sk-validate_keypair,
}
use openuu_server.Tests.Data.{plain, two_accounts, one_disabled}
use openuu_server.Tests.ServerRuns.{unary, unary-Laws, encode, zeros, no_files, with_files}

abbrev never : String → String → Bool
never a b = false

admin_disable-list_users_example :
    (rows : List AccountSummary) × ((admin plain never 120 "" none "list" none two_accounts).0
      ≡ listed rows)
    × ((admin plain never 120 "" none "list" none one_disabled).0
        ≡ listed (map (disabled_row "alice") rows))
unfolding admin openuu_server.Prelude.count openuu_server.Prelude.keep openuu_server.Prelude.any
    openuu_server.Prelude.Bytes-discrete openuu_server.Tests.Data.short_hash
admin_disable-list_users_example =
    admin_disable-list_users plain never 110 120 "" none "alice" two_accounts one_disabled refl

-- texts that are in one case
abbrev caseless : Cases
caseless = record { to_uppercase = λ s. s; to_lowercase = λ s. s }

-- the command line wins over both files, in another spelling
init_args-get_arg_opt_example :
    get_arg_opt caseless "relay-servers" (
      init_args caseless
        (("relay-servers", "env") ∷ [])
        (("relay-servers", "file") ∷ [])
        (("relay_servers", "line") ∷ [])
        (("relay-servers", "old") ∷ []))
    ≡ some "line"
unfolding openuu_server.Start.Arguments.Precedence.last_value openuu_server.Prelude.String_discrete
    openuu_server.Start.Arguments.arg_name
init_args-get_arg_opt_example =
    init_args-get_arg_opt caseless "relay-servers" "line" (("relay-servers", "env") ∷ [])
      (("relay-servers", "file") ∷ []) (("relay_servers", "line") ∷ [])
      (("relay-servers", "old") ∷ []) refl

-- bound to 10.0.0.1
main_task_local_example :
    ((takes_local
          (nat_port (some (v4 167772161)) 21116)
          (listen (some (v4 167772161)) 21116).listener2
        ≡ true)
      × ((listen (some (v4 167772161)) 21116).listener_console ≡ none))
    ⊎ ((takes_local
            (nat_port (some (v4 167772161)) 21116)
            (listen (some (v4 167772161)) 21116).listener2
          ≡ false)
        × ((listen (some (v4 167772161)) 21116).listener_console
            ≡ some (record { ip = localhost; port = nat_port (some (v4 167772161)) 21116 })))
unfolding openuu_server.Start.Listening.main_task listen
main_task_local_example =
    main_task_local (some (v4 167772161)) 21116
      ((nat_listener, true) ∷ (console_listener, true) ∷ []) (listen (some (v4 167772161)) 21116)
      refl

parse_port_apart_example :
    (nat_port none 21116 + 1 ≡ 21116)
    × (as_u16 21116 ≡ 21116)
    × (ws_port none 21116 ≡ 21116 + 2)
    × (nat_port none 21116 ≢ 0)
unfolding openuu_server.Start.Listening.parse_port
parse_port_apart_example = parse_port_apart none 21116 "21116" refl (omega arith)

-- a signature that is the text
abbrev open_signing : Signing
open_signing = record { sign = λ m sk. m; verify = λ m pk. some m }

open_signing-SigningLaws : SigningLaws unary open_signing
open_signing-SigningLaws = record { public_length = λ n. refl; verify_sign = λ n m. refl }

gen_sk-validate_keypair_example :
    (public : String) × (secret : String) × (with_files.pub_file ≡ some (some public))
    × (with_files.sk_file ≡ some (some secret))
    × (validate_keypair unary open_signing public secret ≡ valid)
unfolding openuu_server.Keys.gen_sk encode
gen_sk-validate_keypair_example =
    gen_sk-validate_keypair unary open_signing unary-Laws open_signing-SigningLaws no_files
      with_files (encode (zeros 32)) (zeros 64) refl refl refl
