-- ===== src/Notapp/Args/Accepts.antt =====
-- Which command lines make a server, and what it is told.
use c380_1code.Base.{
  ◌≡◌, refl, sym, ◌∙◌, Bool, true, false, ◌||◌, inl, inr, Bool-cases, some, List, [], ◌∷◌, arith,
}
use c380_1code.Notapp.Args.{
  Str, str_eq, unknown, server, NotappArgs, flag_t, flag_p, flag_l, flag_s, flag_o, flag_u,
  init_notapp_args, parse_flags, parse_args_server, parse_args_observer_client,
  parse_args_user_client, parse_args,
}

-- the options of a server, and how they stand on the command line
pub data ServerOption : Type 0 where
  interval : Str → ServerOption
  port : Str → ServerOption
  log : Str → ServerOption

unfoldable pub render : List ServerOption → List Str
render [] = []
render (interval v ∷ opts) = flag_t ∷ v ∷ render opts
render (port v ∷ opts) = flag_p ∷ v ∷ render opts
render (log v ∷ opts) = flag_l ∷ v ∷ render opts

unfoldable pub has_interval : List ServerOption → Bool
has_interval [] = false
has_interval (interval v ∷ opts) = true
has_interval (port v ∷ opts) = has_interval opts
has_interval (log v ∷ opts) = has_interval opts

pub str_eq_sound : (s t : Str) → str_eq s t ≡ true → s ≡ t
unfolding str_eq
str_eq_sound [] [] e = refl
str_eq_sound [] (d ∷ t) e = absurd (ground arith)
str_eq_sound (c ∷ s) [] e = absurd (ground arith)
str_eq_sound (c ∷ s) (d ∷ t) e =
    let here : c ≡ d = ground arith in
    let there : str_eq s t ≡ true = ground arith in rw (here, str_eq_sound s t there) refl

cons-pair : {f g : Str} {xs ys : List Str} (v : Str) → f ≡ g → xs ≡ ys → f ∷ v ∷ xs ≡ g ∷ v ∷ ys
cons-pair v e q = rw (e, q) refl

cons-tail : {f g : Str} {xs ys : List Str} (p : Str) → f ≡ g → xs ≡ ys → p ∷ f ∷ xs ≡ p ∷ g ∷ ys
cons-tail p e q = rw (e, q) refl

elim-role : unknown ≡ server → ⊥
elim-role e = ground arith

module _ (Float : Type 0) (five : Float) (strtof : Str → Float) where
  -- the options written into the arguments, the last of each kind last
  unfoldable pub apply_all : List ServerOption → NotappArgs Float → NotappArgs Float
  apply_all [] ret = ret
  apply_all (interval v ∷ opts) ret = apply_all opts (record ret { interval = strtof v })
  apply_all (port v ∷ opts) ret = apply_all opts (record ret { sport = v })
  apply_all (log v ∷ opts) ret = apply_all opts (record ret { logfile = some v })

  parse_flags-render :
      (opts : List ServerOption) (interval_flag : Bool) (ret : NotappArgs Float)
      → (interval_flag || has_interval opts) ≡ true
      → parse_flags Float five strtof (render opts) interval_flag ret
        ≡ record (apply_all opts ret) { role = server }
  unfolding parse_flags str_eq render apply_all has_interval
  parse_flags-render [] true ret h = refl
  parse_flags-render [] false ret h = absurd (ground arith)
  parse_flags-render (interval v ∷ opts) interval_flag ret h = parse_flags-render opts true _ refl
  parse_flags-render (port v ∷ opts) interval_flag ret h = parse_flags-render opts interval_flag _ h
  parse_flags-render (log v ∷ opts) interval_flag ret h = parse_flags-render opts interval_flag _ h

  parse_flags-server :
      (args : List Str) (interval_flag : Bool) (ret : NotappArgs Float)
      → ret.role ≡ unknown
      → (parse_flags Float five strtof args interval_flag ret).role ≡ server
      → (opts : List ServerOption) × (args ≡ render opts)
        × ((interval_flag || has_interval opts) ≡ true)
  unfolding parse_flags render has_interval
  parse_flags-server [] true ret u h = ([], refl, refl)
  parse_flags-server [] false ret u h = absurd (elim-role (sym u ∙ h))
  parse_flags-server (flag ∷ []) interval_flag ret u h = absurd (elim-role (sym u ∙ h))
  parse_flags-server (flag ∷ v ∷ rest) interval_flag ret u h =
      elim (Bool-cases (str_eq flag flag_t)) [
        | inl t ↦
            let (opts, e, _) =
              parse_flags-server rest true (record ret { interval = strtof v }) u (rw t at h) in
            (interval v ∷ opts, cons-pair v (str_eq_sound flag flag_t t) e, ground arith)
        | inr t ↦ elim (Bool-cases (str_eq flag flag_p)) [
          | inl p ↦
              let (opts, e, some_t) =
                parse_flags-server rest interval_flag (record ret { sport = v }) u
                  (rw (t, p) at h) in
              (port v ∷ opts, cons-pair v (str_eq_sound flag flag_p p) e, some_t)
          | inr p ↦ elim (Bool-cases (str_eq flag flag_l)) [
            | inl l ↦
                let (opts, e, some_t) =
                  parse_flags-server rest interval_flag (record ret { logfile = some v }) u
                    (rw (t, p, l) at h) in
                (log v ∷ opts, cons-pair v (str_eq_sound flag flag_l l) e, some_t)
            | inr l ↦ absurd (elim-role (sym u ∙ rw (t, p, l) at h))
          ]
        ]
      ]

  -- the client parsers make no server
  observer_no_server :
      (argv : List Str) → (parse_args_observer_client Float five strtof argv).role ≡ server → ⊥
  unfolding parse_args_observer_client init_notapp_args
  observer_no_server [] h = ground arith
  observer_no_server (a ∷ []) h = ground arith
  observer_no_server (a ∷ b ∷ []) h = ground arith
  observer_no_server (a ∷ b ∷ c ∷ []) h = ground arith
  observer_no_server (a ∷ b ∷ c ∷ d ∷ []) h = ground arith
  observer_no_server (a ∷ b ∷ c ∷ d ∷ e ∷ []) h = ground arith
  observer_no_server (a ∷ b ∷ c ∷ d ∷ e ∷ f ∷ rest) h = ground arith

  user_no_server :
      (argv : List Str) → (parse_args_user_client Float five strtof argv).role ≡ server → ⊥
  unfolding parse_args_user_client init_notapp_args
  user_no_server [] h = ground arith
  user_no_server (a ∷ []) h = ground arith
  user_no_server (a ∷ b ∷ []) h = ground arith
  user_no_server (a ∷ b ∷ c ∷ []) h = ground arith
  user_no_server (a ∷ b ∷ c ∷ d ∷ []) h = ground arith
  user_no_server (a ∷ b ∷ c ∷ d ∷ e ∷ rest) h = ground arith

  no_server :
      (program flag arg : Str) (args : List Str)
      → str_eq flag flag_s ≡ false
      → (parse_args Float five strtof (program ∷ flag ∷ arg ∷ args)).role ≡ server
      → ⊥
  unfolding parse_args init_notapp_args
  no_server program flag arg args s h =
      let argv = program ∷ flag ∷ arg ∷ args in
      elim (Bool-cases (str_eq flag flag_o)) [
        | inl o ↦ observer_no_server argv (rw (s, o) at h)
        | inr o ↦ elim (Bool-cases (str_eq flag flag_u)) [
          | inl u ↦ user_no_server argv (rw (s, o, u) at h)
          | inr u ↦ elim-role (rw (s, o, u) at h)
        ]
      ]

  -- A command line of `-s` and any options of which one is `-t` makes a server, and each of its
  -- settings is the last one given for it, or the default if none is.
  pub parse_args-server :
      (program : Str) (opts : List ServerOption)
      → has_interval opts ≡ true
      → parse_args Float five strtof (program ∷ flag_s ∷ render opts)
        ≡ record (apply_all opts (init_notapp_args Float five strtof)) { role = server }
  unfolding parse_args parse_args_server render str_eq has_interval
  parse_args-server program [] h = absurd (ground arith)
  parse_args-server program (interval v ∷ opts) h =
      parse_flags-render (interval v ∷ opts) false (init_notapp_args Float five strtof) h
  parse_args-server program (port v ∷ opts) h =
      parse_flags-render (port v ∷ opts) false (init_notapp_args Float five strtof) h
  parse_args-server program (log v ∷ opts) h =
      parse_flags-render (log v ∷ opts) false (init_notapp_args Float five strtof) h

  -- Only such command lines make a server: if the role is that of a server, then the arguments are
  -- the program, `-s` and options of which one is `-t`.
  pub parse_args-server_only :
      (argv : List Str)
      → (parse_args Float five strtof argv).role ≡ server
      → (program : Str) × (opts : List ServerOption) × (argv ≡ program ∷ flag_s ∷ render opts)
        × (has_interval opts ≡ true)
  unfolding parse_args init_notapp_args
  parse_args-server_only [] h = absurd (elim-role h)
  parse_args-server_only (program ∷ []) h = absurd (elim-role h)
  parse_args-server_only (program ∷ flag ∷ []) h = absurd (elim-role h)
  parse_args-server_only (program ∷ flag ∷ arg ∷ args) h = elim (Bool-cases (str_eq flag flag_s)) [
    | inl s ↦
        let (opts, e, some_t) =
          parse_flags-server (arg ∷ args) false (init_notapp_args Float five strtof) refl
            (unfold parse_args_server in rw s at h) in
        (program, opts, cons-tail program (str_eq_sound flag flag_s s) e, some_t)
    | inr s ↦ absurd (no_server program flag arg args s h)
  ]
