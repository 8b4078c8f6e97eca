-- ===== src/Shell/Builtin/Rounds.antt =====
-- A round of the loop of shell.c from the typed line on: the words, the command, and what is done.
use linux_programming.Prelude.{Bool, ◌||◌}
use linux_programming.Shell.Text.{Word, str_eq}
use linux_programming.Shell.Console.{
  cd_name, pwd_name, mkdir_name, rmdir_name, ls_name, cp_name, exit_name,
}

-- The names of the builtin commands.
abbrev pub is_builtin : Word → Bool
is_builtin w =
    str_eq w cd_name
    || str_eq w pwd_name
    || str_eq w mkdir_name
    || str_eq w rmdir_name
    || str_eq w ls_name
    || str_eq w cp_name
    || str_eq w exit_name
