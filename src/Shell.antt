-- ===== src/Shell.antt =====
-- tools/wcsh_parse.c with the table of tools/wcsh.fsm: the command lines of the shell, read by the state machine of
-- tools/fsm.c.
pub mod Lines
pub mod Program
pub mod Chunks
use webcom_sdk_c.Fsm.{
  ParseResult, parsing, parse_ok, unexpected_end, unexpected_input, Transition, StateInfos, Fsm,
  fsm_new, fsm_feed, fsm_end,
}
use webcom_sdk_c.Path.{c_str}
use webcom_sdk_c.Prelude.{
  ℕ, ◌+◌, Bool, true, false, Option, none, some, List, [], ◌∷◌, ◌++◌, if◌then◌else◌, ltb, length,
  ◌>>=◌,
}

-- `struct wcsh_cmd_parse`, with the commands that were run, or appended to the program, so far. A token's
-- characters are those up to `token_len`.
pub record CmdParse : Type 0 where
  pub token_list : List (List ℕ)
  pub token : List ℕ
  pub commands : List (Bool × List (List ℕ))

abbrev pub token_list_size : ℕ
token_list_size = 32

abbrev pub token_size : ℕ
token_size = 1024

-- `enum cmdline_parse_state`
abbrev pub state_blank : ℕ
state_blank = 0

abbrev pub state_token : ℕ
state_token = 1

abbrev pub state_group : ℕ
state_group = 2

abbrev pub state_escape : ℕ
state_escape = 3

abbrev pub state_group_end : ℕ
state_group_end = 4

abbrev pub state_comment : ℕ
state_comment = 5

-- The actions; the user's data is `none` once they have written beyond an array.
unfoldable pub on_token_start : ℕ → Option CmdParse → Option CmdParse
on_token_start c none = none
on_token_start c (some u) = some (record u { token = c ∷ [] })

unfoldable pub save_char : ℕ → Option CmdParse → Option CmdParse
save_char c none = none
save_char c (some u) =
    if ltb (length u.token) token_size then some (record u { token = u.token ++ c ∷ [] }) else none

unfoldable pub on_group_start : ℕ → Option CmdParse → Option CmdParse
on_group_start c none = none
on_group_start c (some u) = some (record u { token = [] })

unfoldable pub save_token : ℕ → Option CmdParse → Option CmdParse
unfolding c_str
save_token c none = none
save_token c (some u) =
    if ltb (length u.token) token_size
    then (if ltb (length u.token_list) token_list_size
        then some (record u { token_list = u.token_list ++ c_str u.token ∷ [] })
        else none)
    else none

-- The command of some tokens, with `is_interactive`; there is none without tokens.
unfoldable pub command : Bool → List (List ℕ) → List (Bool × List (List ℕ))
command interactive [] = []
command interactive (t ∷ ts) = (interactive, t ∷ ts) ∷ []

module _ (interactive : Bool) where
  unfoldable pub on_command_end : ℕ → Option CmdParse → Option CmdParse
  unfolding command
  on_command_end c none = none
  on_command_end c (some u) =
      some (record u { token_list = []; commands = u.commands ++ command interactive u.token_list })

  unfoldable pub save_token_end_command : ℕ → Option CmdParse → Option CmdParse
  unfolding save_token on_command_end
  save_token_end_command c u = on_command_end c (save_token c u)

  abbrev goto :
      List ℕ → Option (ℕ → Option CmdParse → Option CmdParse) → ℕ → Transition (Option CmdParse)
  goto chars exec next = record { next = next; matched = some chars; exec = exec }

  abbrev otherwise :
      Option (ℕ → Option CmdParse → Option CmdParse) → ℕ → Transition (Option CmdParse)
  otherwise exec next = record { next = next; matched = none; exec = exec }

  abbrev pub blank_transitions : List (Transition (Option CmdParse))
  blank_transitions =
      goto (b'\t' ∷ b' ' ∷ []) none state_blank
      ∷ goto (b'\'' ∷ []) (some on_group_start) state_group
      ∷ goto (b'#' ∷ []) none state_comment
      ∷ goto (b'\n' ∷ b';' ∷ []) (some on_command_end) state_blank
      ∷ otherwise (some on_token_start) state_token
      ∷ []

  abbrev pub token_transitions : List (Transition (Option CmdParse))
  token_transitions =
      goto (b'\t' ∷ b' ' ∷ []) (some save_token) state_blank
      ∷ goto (b'#' ∷ []) (some save_token) state_comment
      ∷ goto (b'\n' ∷ b';' ∷ []) (some save_token_end_command) state_blank
      ∷ otherwise (some save_char) state_token
      ∷ []

  abbrev pub group_transitions : List (Transition (Option CmdParse))
  group_transitions =
      goto (b'\'' ∷ []) (some save_token) state_group_end
      ∷ goto (b'\\' ∷ []) none state_escape
      ∷ otherwise (some save_char) state_group
      ∷ []

  abbrev pub escape_transitions : List (Transition (Option CmdParse))
  escape_transitions = goto (b'\\' ∷ []) (some save_char) state_group ∷ []

  abbrev pub group_end_transitions : List (Transition (Option CmdParse))
  group_end_transitions =
      goto (b'\n' ∷ b';' ∷ []) (some on_command_end) state_blank
      ∷ goto (b'\t' ∷ b' ' ∷ []) none state_blank
      ∷ []

  abbrev pub comment_transitions : List (Transition (Option CmdParse))
  comment_transitions =
      goto (b'\n' ∷ []) (some on_command_end) state_blank ∷ otherwise none state_comment ∷ []

  abbrev pub wcsh_parse_script : List (StateInfos (Option CmdParse))
  wcsh_parse_script =
      record { accept = true; transitions = blank_transitions }
      ∷ record { accept = true; transitions = token_transitions }
      ∷ record { accept = false; transitions = group_transitions }
      ∷ record { accept = false; transitions = escape_transitions }
      ∷ record { accept = true; transitions = group_end_transitions }
      ∷ record { accept = true; transitions = comment_transitions }
      ∷ []

  -- `fsm_end` is called where no character was refused.
  unfoldable pub ended : ParseResult → Fsm (Option CmdParse) → Fsm (Option CmdParse)
  unfolding fsm_end
  ended parsing m = fsm_end wcsh_parse_script m
  ended parse_ok m = m
  ended unexpected_end m = m
  ended unexpected_input m = m

  -- `wcsh_cmdline_eval`: the machine at the end.
  unfoldable pub cmdline_eval : List ℕ → Fsm (Option CmdParse)
  unfolding ended fsm_new fsm_feed
  cmdline_eval buf =
      let m =
        fsm_feed wcsh_parse_script (buf ++ b'\n' ∷ [])
          (fsm_new state_blank (some (record { token_list = []; token = []; commands = [] }))) in
      ended m.ps m

  -- The machine that `wcsh_chunk_eval` makes at its first call.
  unfoldable pub chunk_init : Fsm (Option CmdParse)
  unfolding fsm_new
  chunk_init = fsm_new state_blank (some (record { token_list = []; token = []; commands = [] }))

  -- `wcsh_chunk_eval`: an empty chunk ends the input.
  unfoldable pub chunk_eval : List ℕ → Fsm (Option CmdParse) → Fsm (Option CmdParse)
  unfolding ended fsm_feed
  chunk_eval [] m = let n = fsm_feed wcsh_parse_script (b'\n' ∷ []) m in ended n.ps n
  chunk_eval (c ∷ buf) m = fsm_feed wcsh_parse_script (c ∷ buf) m

  unfoldable pub chunks_eval : List (List ℕ) → Fsm (Option CmdParse) → Fsm (Option CmdParse)
  unfolding chunk_eval
  chunks_eval [] m = m
  chunks_eval (b ∷ bs) m = chunks_eval bs (chunk_eval b m)
