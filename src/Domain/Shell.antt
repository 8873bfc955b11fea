-- ===== src/Domain/Shell.antt =====
-- src/agentic_local_app/domain/shell.py and domain/commands.py: which exit codes are the shell's own
-- answer, and which are a verdict of the program. The parsing of a command line (`shlex`, regular
-- expressions) is the parameter `matches`; a command line is a text, given by number.
use agentic_local_app.Base.{
  ℕ, Bool, true, false, ◌||◌, Option, none, some, if◌then◌else◌, ◌==◌, is_some, ℤ, pos, negsuc,
}

pub data ShellDialect : Type 0 where
  posix powershell cmd unknown : ShellDialect

pub data NotRunReason : Type 0 where
  command_not_found command_not_executable : NotRunReason

abbrev posix_not_run : ℕ → Option NotRunReason
posix_not_run code =
    if code == 127
    then some command_not_found
    else if code == 126
    then some command_not_executable
    else none

-- `NOT_RUN_EXIT_CODES[dialect].get(exit_code)`
abbrev not_run_exit_codes : ShellDialect → ℕ → Option NotRunReason
not_run_exit_codes ShellDialect.cmd code = if code == 9009 then some command_not_found else none
not_run_exit_codes _ code = posix_not_run code

unfoldable pub command_not_run_reason : ShellDialect → Option ℤ → Option NotRunReason
command_not_run_reason dialect none = none
command_not_run_reason dialect (some (negsuc n)) = none
command_not_run_reason dialect (some (pos n)) = not_run_exit_codes dialect n

-- `exit_code is None or exit_code == 0`
abbrev pub none_or_zero : Option ℤ → Bool
none_or_zero none = true
none_or_zero (some (pos n)) = n == 0
none_or_zero (some (negsuc n)) = false

-- `VerdictPrograms.is_verdict`
unfoldable pub is_verdict : (Option ℕ → Bool) → Option ℕ → Option ℤ → Bool → ShellDialect → Bool
unfolding command_not_run_reason
is_verdict matches command exit_code timed_out dialect =
    if timed_out || none_or_zero exit_code
    then false
    else if is_some (command_not_run_reason dialect exit_code)
    then false
    else matches command
