-- ===== src/Helper/Commands/Moves.antt =====
-- The commands of src/userspace_helper.rs move the state as a relation says that allows one command.
use tunmux.Exec.{step}
use tunmux.Exec.Moves.{IsPreorder, Moves, Moves-bind, Moves-if, Moves-pure, Moves-raise}
use tunmux.Helper.{Command, Host, MacosCleanupState, MacosRoutingState}
use tunmux.Helper.Commands.{
  command, execute, failed, run_command, run_command_capture_output, run_command_with_exists_ok,
}
use tunmux.Prelude.{List, ◌∷◌}
use tunmux.Text.{Str}

pub record RunsFreely (R : MacosCleanupState → MacosCleanupState → Type 0) : Type 0 where
  pub order : IsPreorder R
  pub one : (s : MacosCleanupState) (c : Command) → R s (record s { ran = c ∷ s.ran })

module _ {R : MacosCleanupState → MacosCleanupState → Type 0} (free : RunsFreely R)
    (host : Host) where
  pub execute-Moves : (c : Command) → Moves R (execute host c)
  unfolding execute step
  execute-Moves c = record { from = λ s. free.one s c }

  pub run_command_capture_output-Moves :
      (name : Str) (args : List Str) → Moves R (run_command_capture_output host name args)
  unfolding run_command_capture_output
  run_command_capture_output-Moves name args = execute-Moves (command name args)

  pub run_command-Moves : (name : Str) (args : List Str) → Moves R (run_command host name args)
  unfolding run_command
  run_command-Moves name args =
      Moves-bind free.order _ _ (run_command_capture_output-Moves name args) (λ output.
        Moves-if free.order output.success _ _ (λ _. Moves-pure free.order tt)
          (λ _. Moves-raise free.order failed))

  pub run_command_with_exists_ok-Moves :
      (name : Str) (args : List Str) → Moves R (run_command_with_exists_ok host name args)
  unfolding run_command_with_exists_ok
  run_command_with_exists_ok-Moves name args =
      let o = free.order in
      search
        (Moves-bind o, Moves-if o, Moves-pure o, Moves-raise o, run_command_capture_output-Moves)

-- a relation that only looks at the routing state
module _ (P : MacosRoutingState → Type 0) where
  abbrev pub KeepsRouting : MacosCleanupState → MacosCleanupState → Type 0
  KeepsRouting s t = P s.routing → P t.routing

  pub keeps : RunsFreely KeepsRouting
  keeps = record {
    order = record { stay = λ s h. h; chain = λ s t u f g h. g (f h) };
    one = λ s c h. h;
  }
