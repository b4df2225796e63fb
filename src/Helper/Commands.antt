-- ===== src/Helper/Commands.antt =====
-- src/userspace_helper.rs: running a command and looking at how it ended.
pub mod Moves
pub mod Runs
use tunmux.Exec.{Exec, Outcome, done, fail, pure, raise, step, ◌>>=◌, ◌>>◌}
use tunmux.Helper.{Command, Host, MacosCleanupState, Output}
use tunmux.Prelude.{Bool, List, Option, [], false, if◌then◌else◌, none, some, true, ◌||◌, ◌∷◌}
use tunmux.Text.{Str, codes, contains_str}

pub data Failure : Type 0 where
  failed : Failure

abbrev pub Run : Type 0 → Type 0
Run A = Exec MacosCleanupState Failure A

abbrev pub started : Option Output → Outcome Failure Output
started none = fail failed
started (some o) = done o

unfoldable pub execute : Host → Command → Run Output
execute host c = step (λ s. (started (host.answer s.ran c), record s { ran = c ∷ s.ran }))

abbrev pub command : Str → List Str → Command
command name args = record { program = name; args = args; stdin = [] }

unfoldable pub run_command_capture_output : Host → Str → List Str → Run Output
unfolding execute
run_command_capture_output host name args = execute host (command name args)

unfoldable pub run_command : Host → Str → List Str → Run (Unit {0})
unfolding run_command_capture_output
run_command host name args = do
  output ← run_command_capture_output host name args
  if output.success then pure tt else raise failed

unfoldable pub run_command_with_exists_ok : Host → Str → List Str → Run Bool
unfolding run_command_capture_output contains_str
run_command_with_exists_ok host name args = do
  output ← run_command_capture_output host name args
  if output.success
      then pure true
      else if contains_str (codes "File exists") output.stderr
          || contains_str (codes "File exists") output.stdout
      then pure false
      else raise failed
