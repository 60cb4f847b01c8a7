-- ===== src/Shell/Program.antt =====
-- tools/wcsh_program.c: the commands of a script, which wait in a list and are run one by one when the event loop is
-- idle.
pub mod Queue
pub mod Drain
use webcom_sdk_c.Prelude.{
  ℕ, zero, suc, ◌+◌, ◌-◌, Bool, true, false, ◌&&◌, List, [], ◌∷◌, ◌++◌, if◌then◌else◌, ◌==◌, ltb,
  length,
}

-- `argv`; its length is `argc`.
abbrev pub Statement : Type 0
Statement = List (List ℕ)

-- The variables of the file: the list from `program_head` on, `pending_commands`, whether the program is RUNNING
-- and the runner ACTIVE, and whether `idle` is started; with the statements that were given to wcsh_exec so far.
pub record Program : Type 0 where
  pub statements : List Statement
  pub pending_commands : ℕ
  pub is_running : Bool
  pub is_active : Bool
  pub idle_started : Bool
  pub executed : List Statement

abbrev pub program_init : Program
program_init = record {
  statements = [];
  pending_commands = 0;
  is_running = true;
  is_active = false;
  idle_started = false;
  executed = [];
}

unfoldable pub program_resume : Program → Program
program_resume p =
    if ltb 0 p.pending_commands
    then record p { is_running = true; is_active = true; idle_started = true }
    else record p { is_running = true }

unfoldable pub program_pause : Program → Program
program_pause p = record p { is_running = false; is_active = false; idle_started = false }

unfoldable pub resume_if : Bool → Program → Program
unfolding program_resume
resume_if true p = program_resume p
resume_if false p = p

unfoldable pub program_append : Statement → Program → Program
unfolding resume_if
program_append [] p = p
program_append (a ∷ argv) p =
    let q : Program = record p {
      statements = p.statements ++ (a ∷ argv) ∷ [];
      pending_commands = p.pending_commands + 1;
    } in
    resume_if (ltb 0 q.pending_commands && q.is_running && (if q.is_active then false else true)) q

-- The list less its first statement.
unfoldable pub drop_head : List Statement → List Statement
drop_head [] = []
drop_head (s ∷ ss) = ss

unfoldable pub remove_head : Program → Program
unfolding drop_head
remove_head p =
    if ltb 0 p.pending_commands
    then record p {
      statements = drop_head p.statements;
      pending_commands = p.pending_commands - 1;
      is_running = if p.pending_commands - 1 == 0 then false else p.is_running;
    }
    else p

unfoldable pub program_is_finished : Program → Bool
program_is_finished p = p.pending_commands == 0

-- What a command of the shell may do to the program.
pub data Call : Type 0 where
  append : Statement → Call
  pause resume : Call

unfoldable pub call : Call → Program → Program
unfolding program_append program_pause program_resume
call (append argv) p = program_append argv p
call pause p = program_pause p
call resume p = program_resume p

unfoldable pub calls : List Call → Program → Program
unfolding call
calls [] p = p
calls (k ∷ ks) p = calls ks (call k p)

-- wcsh_exec, by the calls that it makes for a statement.
module _ (exec : Statement → List Call) where
  unfoldable pub run_head : List Statement → Program → Program
  unfolding calls remove_head
  run_head [] p = p
  run_head (s ∷ ss) p = remove_head (calls (exec s) (record p { executed = p.executed ++ s ∷ [] }))

  -- `wcsh_program_run_step`, with what it returns.
  unfoldable pub program_run_step : Program → ℕ × Program
  unfolding program_is_finished run_head
  program_run_step p = if program_is_finished p then (1, p) else (0, run_head p.statements p)
