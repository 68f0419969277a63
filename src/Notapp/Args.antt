-- ===== src/Notapp/Args.antt =====
-- Assignment02/argparser.h and argparser.c, and the arguments' types of notapp_base.h. A string is
-- the list of its character codes. `float` and `strtof` are not part of the repository: they are
-- parameters. What the parser prints is not modelled.
pub mod Accepts
use c380_1code.Base.{
  ℕ, suc, Bool, true, false, ◌&&◌, Option, none, some, List, [], ◌∷◌, ◌==◌, ltb, if◌then◌else◌,
  length,
}

abbrev pub Str : Type 0
Str = List ℕ

-- `strcmp(s, t) == 0`
unfoldable pub str_eq : Str → Str → Bool
str_eq [] [] = true
str_eq [] (d ∷ t) = false
str_eq (c ∷ s) [] = false
str_eq (c ∷ s) (d ∷ t) = (c == d) && str_eq s t

pub data Role : Type 0 where
  unknown : Role
  server : Role
  observer_client : Role
  user_client : Role

-- `NULL` is `none`
pub record NotappArgs (Float : Type 0) : Type 0 where
  pub role : Role
  pub interval : Float
  pub sport : Str
  pub logfile : Option Str
  pub saddr : Str
  pub fileordir : Str

-- "-t", "-p", "-l", "-s", "-o" and "-u"
abbrev pub flag_t : Str
flag_t = 45 ∷ 116 ∷ []

abbrev pub flag_p : Str
flag_p = 45 ∷ 112 ∷ []

abbrev pub flag_l : Str
flag_l = 45 ∷ 108 ∷ []

abbrev pub flag_s : Str
flag_s = 45 ∷ 115 ∷ []

abbrev pub flag_o : Str
flag_o = 45 ∷ 111 ∷ []

abbrev pub flag_u : Str
flag_u = 45 ∷ 117 ∷ []

module _ (Float : Type 0) (five : Float) (strtof : Str → Float) where
  -- the texts are "0", "127.0.0.1" and "randomfile.txt"
  unfoldable pub init_notapp_args : NotappArgs Float
  init_notapp_args = record {
    role = unknown;
    interval = five;
    sport = 48 ∷ [];
    logfile = none;
    saddr = 49 ∷ 50 ∷ 55 ∷ 46 ∷ 48 ∷ 46 ∷ 48 ∷ 46 ∷ 49 ∷ [];
    fileordir =
        114 ∷ 97 ∷ 110 ∷ 100 ∷ 111 ∷ 109 ∷ 102 ∷ 105 ∷ 108 ∷ 101 ∷ 46 ∷ 116 ∷ 120 ∷ 116 ∷ [];
  }

  -- the loop of `parse_args_server` on the arguments from `index` on, and what follows it
  unfoldable pub parse_flags :
      List Str → (interval_flag : Bool) → NotappArgs Float → NotappArgs Float
  parse_flags [] interval_flag ret = if interval_flag then record ret { role = server } else ret
  parse_flags (flag ∷ []) interval_flag ret = ret
  parse_flags (flag ∷ value ∷ rest) interval_flag ret =
      if str_eq flag flag_t
      then parse_flags rest true (record ret { interval = strtof value })
      else if str_eq flag flag_p
      then parse_flags rest interval_flag (record ret { sport = value })
      else if str_eq flag flag_l
      then parse_flags rest interval_flag (record ret { logfile = some value })
      else ret

  unfoldable pub parse_args_server : List Str → NotappArgs Float
  unfolding parse_flags
  parse_args_server (program ∷ role ∷ flag ∷ rest) =
      parse_flags (flag ∷ rest) false init_notapp_args
  parse_args_server _ = init_notapp_args

  unfoldable pub parse_args_observer_client : List Str → NotappArgs Float
  parse_args_observer_client (program ∷ role ∷ saddr ∷ sport ∷ fileordir ∷ []) =
      record init_notapp_args {
        role = observer_client;
        saddr = saddr;
        sport = sport;
        fileordir = fileordir;
      }
  parse_args_observer_client _ = init_notapp_args

  unfoldable pub parse_args_user_client : List Str → NotappArgs Float
  parse_args_user_client (program ∷ role ∷ saddr ∷ sport ∷ []) = record init_notapp_args {
    role = user_client;
    saddr = saddr;
    sport = sport;
  }
  parse_args_user_client _ = init_notapp_args

  -- `argv`, of which `argc` is the length
  unfoldable pub parse_args : List Str → NotappArgs Float
  parse_args (program ∷ flag_role ∷ arg ∷ args) =
      let argv = program ∷ flag_role ∷ arg ∷ args in
      if str_eq flag_role flag_s
      then parse_args_server argv
      else if str_eq flag_role flag_o
      then parse_args_observer_client argv
      else if str_eq flag_role flag_u
      then parse_args_user_client argv
      else init_notapp_args
  parse_args _ = init_notapp_args
