-- ===== src/Game/Args.antt =====
-- game/main.cpp: the command line. Warnings about unknown flags are left out.
use voxhammer.Base.{
  some, ◌||◌, true, codes, false, ◌==◌, Bool, [], if◌then◌else◌, ◌∷◌, List, Option, Text, none,
  text_eq,
}
use voxhammer.Console.Registry.{has_prefix}

pub record Args : Type 0 where
  pub remote_password : Option Text
  pub cvars_path : Text
  pub no_remote : Bool
  pub no_window : Bool
  pub reset_cert : Bool
  pub show_version : Bool
  pub show_help : Bool

abbrev pub no_args : Args
no_args = record {
  remote_password = none;
  cvars_path = [];
  no_remote = false;
  no_window = false;
  reset_cert = false;
  show_version = false;
  show_help = false;
}

-- What stands behind the first equals sign.
unfoldable pub value_of : Text → Text
value_of [] = []
value_of (c ∷ s) = let rest = value_of s in if c == b'=' then s else rest

unfoldable pub parse_arg : Text → Args → Args
unfolding value_of
parse_arg s a =
    if text_eq s (codes "--version")
    then record a { show_version = true }
    else if text_eq s (codes "--help") || text_eq s (codes "-h")
    then record a { show_help = true }
    else if text_eq s (codes "--no-remote")
    then record a { no_remote = true }
    else if text_eq s (codes "--remote")
    then record a { no_remote = false }
    else if text_eq s (codes "--no-window")
    then record a { no_window = true }
    else if text_eq s (codes "--reset-cert")
    then record a { reset_cert = true }
    else if has_prefix (codes "--remote-password=") s
    then record a { remote_password = some (value_of s) }
    else if has_prefix (codes "--cvars=") s
    then record a { cvars_path = value_of s }
    else a

unfoldable pub parse_from : List Text → Args → Args
unfolding parse_arg
parse_from [] a = a
parse_from (s ∷ argv) a = parse_from argv (parse_arg s a)

-- `ParseArgs`, for the arguments behind the name of the program.
unfoldable pub parse_args : List Text → Args
unfolding parse_from
parse_args argv = parse_from argv no_args
