-- ===== src/Tests/Shell.antt =====
-- Concrete inputs for the theorems on the shell: a line of two words, and a program of two statements.
use webcom_sdk_c.Base64.{codes}
use webcom_sdk_c.Fsm.{parse_ok}
use webcom_sdk_c.Prelude.{
  ℕ, ◌≤◌, ◌<◌, ◌≡◌, refl, true, false, some, List, [], ◌∷◌, ◌++◌, All, arith,
}
use webcom_sdk_c.Shell.{command, cmdline_eval}
use webcom_sdk_c.Shell.Lines.{IsPlain, IsWord, line, tokens, commands_of, cmdline_eval-line}
use webcom_sdk_c.Shell.Program.{Statement, Program, Call, pause, resume, program_init}
use webcom_sdk_c.Shell.Program.Drain.{
  idles, appends, has_word, happen_all-resumed, happen_all-appends,
}
use webcom_sdk_c.Shell.Program.Queue.{IsCounted, made, happen_all}

letter : (c : ℕ) → 64 ≤ c → c < 128 → IsPlain c
letter c h k = record {
  no_nul = λ e. omega arith;
  no_tab = λ e. omega arith;
  no_newline = λ e. omega arith;
  no_space = λ e. omega arith;
  no_hash = λ e. omega arith;
  no_semicolon = λ e. omega arith;
  byte = omega arith;
}

-- `ls a`
abbrev ls_a : List (ℕ × List ℕ)
ls_a = (b'l', b's' ∷ []) ∷ (b'a', []) ∷ []

ls_a-AreWords : All IsWord ls_a
ls_a-AreWords = (
  record {
    head = letter b'l' (omega arith) (omega arith);
    no_quote = λ e. omega arith;
    tail = (letter b's' (omega arith) (omega arith), tt);
    short = omega arith;
  },
  (
    record {
      head = letter b'a' (omega arith) (omega arith);
      no_quote = λ e. omega arith;
      tail = tt;
      short = omega arith;
    },
    tt,
  ),
)

cmdline_eval-line_example :
    ((cmdline_eval true (line ls_a)).ps ≡ parse_ok)
    × (commands_of (cmdline_eval true (line ls_a)).user ≡ some (command true (tokens ls_a)))
cmdline_eval-line_example = cmdline_eval-line true ls_a ls_a-AreWords (omega arith)

-- A command `pause` pauses the program, any other leaves it.
abbrev pauses : Statement → List Call
pauses [] = []
pauses (argv ∷ more) = pause ∷ []

-- A paused program of two statements.
abbrev two_statements : Program
two_statements = record program_init {
  statements = (codes "ls" ∷ []) ∷ (codes "cd" ∷ codes "a" ∷ []) ∷ [];
  pending_commands = 2;
  is_running = false;
}

happen_all-resumed_example :
    ((happen_all (λ s. []) (made resume ∷ idles 2) two_statements).statements ≡ [])
    × ((happen_all (λ s. []) (made resume ∷ idles 2) two_statements).executed
        ≡ two_statements.executed ++ two_statements.statements)
unfolding IsCounted
happen_all-resumed_example = happen_all-resumed (λ s. []) two_statements (λ s. refl) refl

happen_all-appends_example :
    ((happen_all (λ s. []) (appends two_statements.statements ++ idles 2) program_init).statements
      ≡ [])
    × ((happen_all (λ s. []) (appends two_statements.statements ++ idles 2) program_init).executed
        ≡ two_statements.statements)
happen_all-appends_example =
    happen_all-appends (λ s. []) two_statements.statements (λ s. refl) (has_word, (has_word, tt))
