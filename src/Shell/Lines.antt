-- ===== src/Shell/Lines.antt =====
-- Lines of plain words in the shell of tools, and the state machine that reads them.
use webcom_sdk_c.Fsm.{
  binsearch, search_loop, signed, char_at, Transition, Fsm, fsm_new, find_transition, matches,
  execute, advance, transitions_of, feed_char, fsm_feed, accepts, fsm_end, parsing, parse_ok,
}
use webcom_sdk_c.Path.{c_str}
use webcom_sdk_c.Prelude.{
  ℕ, suc, ◌+◌, ◌≤◌, ◌<◌, ◌≡◌, ◌≢◌, refl, ap, ◌∙◌, Bool, false, Option, none, some, List, [], ◌∷◌,
  ◌++◌, append_assoc, append-nil, lt→ltb, length, length-append, All, arith,
}
use webcom_sdk_c.Shell.{
  CmdParse, token_size, token_list_size, state_blank, state_token, on_token_start, save_char,
  save_token, command, on_command_end, save_token_end_command, blank_transitions, token_transitions,
  wcsh_parse_script, ended, cmdline_eval,
}

-- A character that ends no word and is no NUL.
pub record IsPlain (c : ℕ) : Type 0 where
  pub no_nul : c ≢ 0
  pub no_tab : c ≢ b'\t'
  pub no_newline : c ≢ b'\n'
  pub no_space : c ≢ b' '
  pub no_hash : c ≢ b'#'
  pub no_semicolon : c ≢ b';'
  pub byte : c < 256

-- A word: a plain character other than a quote, and plain characters, fewer than the array has room for.
pub record IsWord (w : ℕ × List ℕ) : Type 0 where
  pub head : IsPlain w.0
  pub no_quote : w.0 ≢ b'\''
  pub tail : All IsPlain w.1
  pub short : suc (length w.1) < token_size

miss_one : (a c : ℕ) → a < 128 → c < 256 → c ≢ a → binsearch c (a ∷ []) ≡ false
unfolding binsearch search_loop signed char_at
miss_one a c h k n = ground arith

miss_two :
    (a b c : ℕ) → a < b → b < 128 → c < 256 → c ≢ a → c ≢ b → binsearch c (a ∷ b ∷ []) ≡ false
unfolding binsearch search_loop signed char_at
miss_two a b c g h k m n = ground arith

-- A line of some words with single spaces between them, and the words.
pub line : List (ℕ × List ℕ) → List ℕ
line [] = []
line (w ∷ []) = w.0 ∷ w.1
line (w ∷ v ∷ ws) = ((w.0 ∷ w.1) ++ b' ' ∷ []) ++ line (v ∷ ws)

pub tokens : List (ℕ × List ℕ) → List (List ℕ)
tokens [] = []
tokens (w ∷ ws) = (w.0 ∷ w.1) ∷ tokens ws

-- The commands that were run or appended, unless an array was overrun.
pub commands_of : Option CmdParse → Option (List (Bool × List (List ℕ)))
commands_of none = none
commands_of (some u) = some u.commands

module _ (interactive : Bool) where
  otherwise_blank :
      (c : ℕ)
      → IsPlain c
      → c ≢ b'\''
      → find_transition c (blank_transitions interactive)
        ≡ some (record { next = state_token; matched = none; exec = some on_token_start })
  unfolding find_transition matches
  otherwise_blank c p q =
      rw
        (
          miss_two b'\t' b' ' c (omega arith) (omega arith) p.byte p.no_tab p.no_space,
          miss_one b'\'' c (omega arith) p.byte q,
          miss_one b'#' c (omega arith) p.byte p.no_hash,
          miss_two b'\n' b';' c (omega arith) (omega arith) p.byte p.no_newline p.no_semicolon,
        )
        refl

  otherwise_token :
      (c : ℕ)
      → IsPlain c
      → find_transition c (token_transitions interactive)
        ≡ some (record { next = state_token; matched = none; exec = some save_char })
  unfolding find_transition matches
  otherwise_token c p =
      rw
        (
          miss_two b'\t' b' ' c (omega arith) (omega arith) p.byte p.no_tab p.no_space,
          miss_one b'#' c (omega arith) p.byte p.no_hash,
          miss_two b'\n' b';' c (omega arith) (omega arith) p.byte p.no_newline p.no_semicolon,
        )
        refl

  -- A machine less its position.
  At : ℕ → Option CmdParse → Fsm (Option CmdParse) → Type 0
  At s u m = (m.ps ≡ parsing) × (m.state ≡ s) × (m.user ≡ u)

  -- From a state and the user's data, some characters lead to others.
  Leads : ℕ → Option CmdParse → List ℕ → ℕ → Option CmdParse → Type 0
  Leads s u w s' u' =
      (m : Fsm (Option CmdParse)) (rest : List ℕ)
      → At s u m
      → (m' : Fsm (Option CmdParse)) × (fsm_feed (wcsh_parse_script interactive) (w ++ rest) m
          ≡ fsm_feed (wcsh_parse_script interactive) rest m')
        × At s' u' m'

  Leads-nil : (s : ℕ) (u : Option CmdParse) → Leads s u [] s u
  unfolding Leads
  Leads-nil s u = λ m rest a. (m, refl, a)

  Leads-step :
      (s c : ℕ) (u u' : Option CmdParse) (tr : Transition (Option CmdParse))
      → find_transition c (transitions_of (wcsh_parse_script interactive) s) ≡ some tr
      → execute c tr.exec u ≡ u'
      → Leads s u (c ∷ []) tr.next u'
  unfolding Leads At fsm_feed feed_char advance
  Leads-step s c u u' tr h e = λ m rest a. (
    record (advance c m) { state = tr.next; user = execute c tr.exec m.user },
    rw (a.1, h) refl,
    (a.0, refl, ap (execute c tr.exec) a.2 ∙ e),
  )

  Leads-trans :
      (s s1 s2 : ℕ) (u u1 u2 : Option CmdParse) (v w : List ℕ)
      → Leads s u v s1 u1
      → Leads s1 u1 w s2 u2
      → Leads s u (v ++ w) s2 u2
  unfolding Leads
  Leads-trans s s1 s2 u u1 u2 v w f g = λ m rest a.
      let (m1, e1, a1) = f m (w ++ rest) a in
      let (m2, e2, a2) = g m1 rest a1 in (m2, rw (append_assoc v w rest) (e1 ∙ e2), a2)

  -- The data with some tokens, a token that is read, and the commands so far.
  parse_of : List (List ℕ) → List ℕ → List (Bool × List (List ℕ)) → Option CmdParse
  parse_of ts t cs = some (record { token_list = ts; token = t; commands = cs })

  save_char-parse_of :
      (c : ℕ) (ts : List (List ℕ)) (t : List ℕ) (cs : List (Bool × List (List ℕ)))
      → length t < token_size
      → save_char c (parse_of ts t cs) ≡ parse_of ts (t ++ c ∷ []) cs
  unfolding save_char parse_of
  save_char-parse_of c ts t cs h = rw (lt→ltb (length t) token_size h) refl

  Leads-chars :
      (w : List ℕ) (ts : List (List ℕ)) (t : List ℕ) (cs : List (Bool × List (List ℕ)))
      → All IsPlain w
      → length t + length w ≤ token_size
      → Leads state_token (parse_of ts t cs) w state_token (parse_of ts (t ++ w) cs)
  unfolding transitions_of execute
  Leads-chars [] ts t cs a h = rw (append-nil t) (Leads-nil state_token _)
  Leads-chars (c ∷ w) ts t cs a h = rw (← (append_assoc t (c ∷ []) w)) (
      Leads-trans state_token state_token state_token _ (parse_of ts (t ++ c ∷ []) cs) _ (c ∷ []) w
        (Leads-step state_token c _ _ _ (otherwise_token c a.0)
          (save_char-parse_of c ts t cs (omega arith)))
        (Leads-chars w ts (t ++ c ∷ []) cs a.1 (omega (arith, length-append t (c ∷ [])))))

  c_str-plain : (w : List ℕ) → All IsPlain w → c_str w ≡ w
  unfolding c_str
  c_str-plain [] a = refl
  c_str-plain (c ∷ w) a = ground (arith, a.0.no_nul, c_str-plain w a.1)

  save_token-parse_of :
      (c : ℕ) (ts : List (List ℕ)) (t : List ℕ) (cs : List (Bool × List (List ℕ)))
      → length t < token_size
      → length ts < token_list_size
      → All IsPlain t
      → save_token c (parse_of ts t cs) ≡ parse_of (ts ++ t ∷ []) t cs
  unfolding save_token parse_of
  save_token-parse_of c ts t cs h k a =
      rw (lt→ltb (length t) token_size h, lt→ltb (length ts) token_list_size k, c_str-plain t a)
        refl

  -- The characters of a word are read as the token.
  Leads-letters :
      (c : ℕ) (w : List ℕ) (ts : List (List ℕ)) (t : List ℕ) (cs : List (Bool × List (List ℕ)))
      → IsWord (c, w)
      → Leads state_blank (parse_of ts t cs) (c ∷ w) state_token (parse_of ts (c ∷ w) cs)
  unfolding transitions_of execute on_token_start parse_of
  Leads-letters c w ts t cs p =
      Leads-trans state_blank state_token state_token _ (parse_of ts (c ∷ []) cs) _ (c ∷ []) w
        (Leads-step state_blank c _ _ _ (otherwise_blank c p.head p.no_quote) refl)
        (Leads-chars w ts (c ∷ []) cs p.tail (omega (arith, p.short)))

  -- A word and a space add the word to the tokens.
  Leads-word :
      (w : ℕ × List ℕ) (ts : List (List ℕ)) (t : List ℕ) (cs : List (Bool × List (List ℕ)))
      → IsWord w
      → length ts < token_list_size
      → Leads state_blank
          (parse_of ts t cs)
          ((w.0 ∷ w.1) ++ b' ' ∷ [])
          state_blank
          (parse_of (ts ++ (w.0 ∷ w.1) ∷ []) (w.0 ∷ w.1) cs)
  unfolding transitions_of find_transition matches binsearch search_loop signed char_at execute
      on_token_start parse_of
  Leads-word (c, w) ts t cs p h =
      Leads-trans state_blank state_token state_blank _ (parse_of ts (c ∷ w) cs) _ (c ∷ w)
        (b' ' ∷ []) (Leads-letters c w ts t cs p)
        (Leads-step state_token b' ' _ _ _ refl
          (save_token-parse_of b' ' ts (c ∷ w) cs p.short h (p.head, p.tail)))

  save_token_end_command-parse_of :
      (c : ℕ) (ts : List (List ℕ)) (t : List ℕ) (cs : List (Bool × List (List ℕ)))
      → length t < token_size
      → length ts < token_list_size
      → All IsPlain t
      → save_token_end_command interactive c (parse_of ts t cs)
        ≡ parse_of [] t (cs ++ command interactive (ts ++ t ∷ []))
  unfolding save_token_end_command on_command_end parse_of
  save_token_end_command-parse_of c ts t cs h k a =
      ap (on_command_end interactive c) (save_token-parse_of c ts t cs h k a)

  -- The last word and the newline add the word, and end the command.
  Leads-last_word :
      (w : ℕ × List ℕ) (ts : List (List ℕ)) (t : List ℕ) (cs : List (Bool × List (List ℕ)))
      → IsWord w
      → length ts < token_list_size
      → Leads state_blank
          (parse_of ts t cs)
          ((w.0 ∷ w.1) ++ b'\n' ∷ [])
          state_blank
          (parse_of [] (w.0 ∷ w.1) (cs ++ command interactive (ts ++ (w.0 ∷ w.1) ∷ [])))
  unfolding transitions_of find_transition matches binsearch search_loop signed char_at execute
      on_token_start parse_of
  Leads-last_word (c, w) ts t cs p h =
      Leads-trans state_blank state_token state_blank _ (parse_of ts (c ∷ w) cs) _ (c ∷ w)
        (b'\n' ∷ []) (Leads-letters c w ts t cs p)
        (Leads-step state_token b'\n' _ _ _ refl
          (save_token_end_command-parse_of b'\n' ts (c ∷ w) cs p.short h (p.head, p.tail)))

  -- A line of one word or more and the newline.
  Leads-line :
      (w : ℕ × List ℕ) (ws : List (ℕ × List ℕ)) (ts : List (List ℕ)) (t : List ℕ)
      (cs : List (Bool × List (List ℕ)))
      → All IsWord (w ∷ ws)
      → length ts + length (w ∷ ws) ≤ token_list_size
      → (t' : List ℕ) × Leads state_blank
          (parse_of ts t cs)
          (line (w ∷ ws) ++ b'\n' ∷ [])
          state_blank
          (parse_of [] t' (cs ++ command interactive (ts ++ tokens (w ∷ ws))))
  unfolding line tokens
  Leads-line w [] ts t cs a h = (w.0 ∷ w.1, Leads-last_word w ts t cs a.0 (omega arith))
  Leads-line w (v ∷ ws) ts t cs a h =
      let (t', f) =
        Leads-line v ws (ts ++ (w.0 ∷ w.1) ∷ []) (w.0 ∷ w.1) cs a.1
          (omega (arith, length-append ts ((w.0 ∷ w.1) ∷ []))) in
      (
        t',
        rw
            (
              append_assoc ((w.0 ∷ w.1) ++ b' ' ∷ []) (line (v ∷ ws)) (b'\n' ∷ []),
              ← (append_assoc ts ((w.0 ∷ w.1) ∷ []) (tokens (v ∷ ws))),
            )
            (Leads-trans state_blank state_blank state_blank _
              (parse_of (ts ++ (w.0 ∷ w.1) ∷ []) (w.0 ∷ w.1) cs) _ ((w.0 ∷ w.1) ++ b' ' ∷ [])
              (line (v ∷ ws) ++ b'\n' ∷ []) (Leads-word w ts t cs a.0 (omega arith)) f),
      )

  Leads-newline :
      Leads state_blank
        (parse_of [] [] [])
        (b'\n' ∷ [])
        state_blank
        (parse_of [] [] (command interactive []))
  unfolding transitions_of find_transition matches binsearch search_loop signed char_at execute
      on_command_end parse_of
  Leads-newline = Leads-step state_blank b'\n' _ _ _ refl refl

  Leads-command :
      (ws : List (ℕ × List ℕ))
      → All IsWord ws
      → length ws ≤ token_list_size
      → (t' : List ℕ) × Leads state_blank
          (parse_of [] [] [])
          (line ws ++ b'\n' ∷ [])
          state_blank
          (parse_of [] t' (command interactive (tokens ws)))
  unfolding line tokens
  Leads-command [] a h = ([], Leads-newline)
  Leads-command (w ∷ ws) a h = Leads-line w ws [] [] [] a (omega arith)

  ended-At :
      (n : Fsm (Option CmdParse)) (t : List ℕ) (cs : List (Bool × List (List ℕ)))
      → At state_blank (parse_of [] t cs) n
      → ((ended interactive n.ps n).ps ≡ parse_ok)
        × (commands_of (ended interactive n.ps n).user ≡ some cs)
  unfolding ended fsm_end accepts commands_of At parse_of
  ended-At n t cs a = rw (a.0, a.1, a.2) (refl, refl)

  -- A line of 32 words at most with single spaces between them, of plain characters and fewer than
  -- 1024 of them each, is accepted, and is one command of these words, the last one included, or
  -- none where there are no words.
  pub cmdline_eval-line :
      (ws : List (ℕ × List ℕ))
      → All IsWord ws
      → length ws ≤ token_list_size
      → ((cmdline_eval interactive (line ws)).ps ≡ parse_ok)
        × (commands_of (cmdline_eval interactive (line ws)).user
            ≡ some (command interactive (tokens ws)))
  unfolding cmdline_eval fsm_new Leads At
  cmdline_eval-line ws a h =
      let (t, f) = Leads-command ws a h in
      let (n, g, q) =
        f (fsm_new state_blank (some (record { token_list = []; token = []; commands = [] }))) []
          (unfold parse_of in (refl, refl, refl)) in
      rw (← (append-nil (line ws ++ b'\n' ∷ [])), g)
        (unfold fsm_feed in ended-At n t (command interactive (tokens ws)) q)
