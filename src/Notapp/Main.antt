-- ===== src/Notapp/Main.antt =====
-- Assignment02/notapp.c: which of the three programs a command line starts. The message about an
-- unknown client is not modelled.
use c380_1code.Base.{◌≡◌, ◌↔◌, refl, sym, ap, ◌∙◌, true, List, ◌∷◌, arith}
use c380_1code.Notapp.Args.{
  Str, Role, unknown, server, observer_client, user_client, NotappArgs, flag_s, init_notapp_args,
  parse_args,
}
use c380_1code.Notapp.Args.Accepts.{
  ServerOption, render, has_interval, apply_all, parse_args-server, parse_args-server_only,
}

-- the call that `main` makes, if it makes one
pub data Call (Float : Type 0) : Type 0 where
  run_server : NotappArgs Float → Call Float
  run_observer_client : NotappArgs Float → Call Float
  run_user_client : NotappArgs Float → Call Float
  no_call : Call Float

module _ (Float : Type 0) where
  -- `switch (arg.role)`
  unfoldable pub switch_role : Role → NotappArgs Float → Call Float
  switch_role server args = run_server args
  switch_role observer_client args = run_observer_client args
  switch_role user_client args = run_user_client args
  switch_role unknown args = no_call

  args_of : NotappArgs Float → Call Float → NotappArgs Float
  args_of default (run_server args) = args
  args_of default (run_observer_client args) = default
  args_of default (run_user_client args) = default
  args_of default no_call = default

  switch_role-server :
      (role : Role) (args args' : NotappArgs Float)
      → switch_role role args ≡ run_server args'
      → (role ≡ server) × (args ≡ args')
  unfolding switch_role args_of
  switch_role-server server args args' e = (refl, ap (args_of args) e)
  switch_role-server observer_client args args' e = absurd (ground (arith, e))
  switch_role-server user_client args args' e = absurd (ground (arith, e))
  switch_role-server unknown args args' e = absurd (ground (arith, e))

module _ (Float : Type 0) (five : Float) (strtof : Str → Float) where
  unfoldable pub main : List Str → Call Float
  main argv =
      switch_role Float (parse_args Float five strtof argv).role (parse_args Float five strtof argv)

  -- A command line starts the server, with given arguments, exactly if it is the program, `-s` and
  -- options of which one is `-t`, and the arguments are the defaults with the options applied.
  pub main-run_server :
      (argv : List Str) (args : NotappArgs Float)
      → (main argv ≡ run_server args) ↔ (
          (program : Str) × (opts : List ServerOption) × (argv ≡ program ∷ flag_s ∷ render opts)
          × (has_interval opts ≡ true)
          × (args ≡ record (apply_all Float five strtof opts (init_notapp_args Float five strtof)) {
            role = server;
          }))
  unfolding main switch_role
  main-run_server argv args = (
    (λ e.
        let (is_server, same) =
          switch_role-server Float (parse_args Float five strtof argv).role
            (parse_args Float five strtof argv) args e in
        let (program, opts, line, timed) =
          parse_args-server_only Float five strtof argv is_server in
        (
          program,
          opts,
          line,
          timed,
          sym same
              ∙ (ap (parse_args Float five strtof) line
                  ∙ parse_args-server Float five strtof program opts timed),
        )),
    (λ (program, opts, line, timed, e).
        let parsed =
          ap (parse_args Float five strtof) line
          ∙ parse_args-server Float five strtof program opts timed in
        ap (λ a. switch_role Float a.role a) parsed ∙ ap run_server (sym e)),
  )
