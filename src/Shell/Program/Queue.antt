-- ===== src/Shell/Program/Queue.antt =====
-- The order in which the statements of tools/wcsh_program.c are run.
use webcom_sdk_c.Prelude.{
  suc, ◌≡◌, refl, ap, ◌∙◌, Bool, true, false, List, [], ◌∷◌, ◌++◌, length, lt→ltb, arith,
}
use webcom_sdk_c.Shell.Program.{
  Statement, Program, drop_head, remove_head, Call, append, pause, resume, call, program_run_step,
}

-- The statements that a call appends; an empty one is not.
pub appended : Call → List Statement
appended (append []) = []
appended (append (a ∷ argv)) = (a ∷ argv) ∷ []
appended pause = []
appended resume = []

pub appended_by : List Call → List Statement
unfolding appended
appended_by [] = []
appended_by (k ∷ ks) = appended k ++ appended_by ks

-- The count is that of the list.
unfoldable pub IsCounted : Program → Type 0
IsCounted p = p.pending_commands ≡ length p.statements

-- A program after calls: the statements that it has got, and that it has not run any.
record Extends (p q : Program) (ss : List Statement) : Type 0 where
  listed : q.statements ≡ p.statements ++ ss
  counted : q.pending_commands ≡ length q.statements
  unchanged : q.executed ≡ p.executed

-- A program later: more statements were run, and what was run and what waits begins with what was run and what
-- waited.
pub record Follows (p q : Program) : Type 0 where
  pub ran : List Statement
  pub grown : q.executed ≡ p.executed ++ ran
  pub new : List Statement
  pub in_order : q.executed ++ q.statements ≡ (p.executed ++ p.statements) ++ new
  pub counted : IsCounted q

pub remove_head-IsCounted :
    (q : Program) (s : Statement) (ss : List Statement)
    → q.statements ≡ s ∷ ss
    → IsCounted q
    → ((remove_head q).statements ≡ ss)
      × IsCounted (remove_head q)
      × ((remove_head q).executed ≡ q.executed)
unfolding remove_head drop_head IsCounted
remove_head-IsCounted q s ss e c =
    let k : q.pending_commands ≡ suc (length ss) = c ∙ ap length e in
    rw (lt→ltb 0 q.pending_commands (omega arith), e) (refl, omega arith, refl)

-- What happens to a program: a call from outside, or a turn of the idle event loop, which calls `idle_cb` between
-- the start and the stop of its watcher.
pub data Event : Type 0 where
  made : Call → Event
  idle : Event

module _ (exec : Statement → List Call) where
  -- `idle_cb`, where its watcher is started.
  unfoldable pub idle_turn : Bool → Program → Program
  unfolding program_run_step
  idle_turn true p = (program_run_step exec p).1
  idle_turn false p = p

  unfoldable pub happen : Event → Program → Program
  unfolding idle_turn call
  happen (made k) p = call k p
  happen idle p = idle_turn p.idle_started p

  unfoldable pub happen_all : List Event → Program → Program
  unfolding happen
  happen_all [] p = p
  happen_all (e ∷ es) p = happen_all es (happen e p)
