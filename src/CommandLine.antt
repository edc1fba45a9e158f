-- ===== src/CommandLine.antt =====
-- The words of a command line and what `shell_run` of src/shell.c takes them for.
use minios_lab_edwin_jose.Base.{
  Bool, true, false, ◌&&◌, Option, none, some, [], ◌∷◌, ◌==◌, if◌then◌else◌,
}
use minios_lab_edwin_jose.Base.Text.{codes}
use minios_lab_edwin_jose.Machine.{CString}

-- strcmp(a, b) == 0
pub equal : CString → CString → Bool
equal [] [] = true
equal [] (b ∷ y) = false
equal (a ∷ x) [] = false
equal (a ∷ x) (b ∷ y) = let rest = equal x y in a == b && rest

-- !arg || strlen(arg) == 0
pub is_blank : Option CString → Bool
is_blank none = true
is_blank (some []) = true
is_blank (some (c ∷ cs)) = false

-- What the first word of a line selects, with the words that it is given.
pub data Command : Type 0 where
  help ps stats exit unknown : Command
  run : Option CString → Option CString → Command
  kill slice inspect runpair log : Option CString → Command

pub parse : CString → Option CString → Option CString → Command
unfolding equal
parse cmd arg arg2 =
    if equal cmd (codes "help")
    then Command.help
    else if equal cmd (codes "run")
    then Command.run arg arg2
    else if equal cmd (codes "ps")
    then Command.ps
    else if equal cmd (codes "kill")
    then Command.kill arg
    else if equal cmd (codes "slice")
    then Command.slice arg
    else if equal cmd (codes "inspect")
    then Command.inspect arg
    else if equal cmd (codes "runpair")
    then Command.runpair arg
    else if equal cmd (codes "stats")
    then Command.stats
    else if equal cmd (codes "log")
    then Command.log arg
    else if equal cmd (codes "exit")
    then Command.exit
    else Command.unknown
