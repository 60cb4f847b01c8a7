-- ===== src/Datasync/Parser/Stream.antt =====
-- The parser object of lib/datasync/parser.c, which is fed the bytes of a message in pieces.
use webcom_sdk_c.Base64.{codes}
use webcom_sdk_c.Datasync.JsonC.{JsonC}
use webcom_sdk_c.Datasync.Message.{Msg}
use webcom_sdk_c.Datasync.Parser.{parse_msg_json}
use webcom_sdk_c.Prelude.{ℕ, ◌≡◌, ◌≢◌, refl, Option, none, some, List, ◌++◌}

-- What `json_tokener_parse_ex` and `json_tokener_get_error` say: the value, that more bytes are needed, or the
-- description of an error.
pub data Tokens (V : Type 0) : Type 0 where
  success : V → Tokens V
  continue : Tokens V
  failed : List ℕ → Tokens V

-- `wc_parser_result_t`
pub data ParserResult : Type 0 where
  parser_ok : ParserResult
  parser_continue : ParserResult
  parser_error : ParserResult

-- `wc_parser_t`; `error` is NULL in a new parser.
pub record Parser (T : Type 0) : Type 0 where
  pub jtok : T
  pub error : Option (List ℕ)

-- The parser after a call, what the call returns, and the message that it stores.
pub record Parsed (T : Type 0) : Type 0 where
  pub parser : Option (Parser T)
  pub result : ParserResult
  pub res : Option Msg

abbrev pub parse_err_not_wc : List ℕ
parse_err_not_wc = codes "not a valid webcom message"

abbrev pub parse_err_parser_null : List ℕ
parse_err_parser_null = codes "parser is NULL"

-- json-c's tokener: its state when new, NULL for lack of memory, and what feeding it bytes gives. A NULL
-- parser is `none`.
module _ (j : JsonC) (qsort_keys : List (List ℕ × j.Value) → List (List ℕ × j.Value)) {T : Type 0}
    (tokener_new : Option T) (parse_ex : T → List ℕ → T × Tokens j.Value) where
  unfoldable pub datasync_parser_new : Option (Parser T)
  datasync_parser_new = elim tokener_new as (λ o. Option (Parser T)) [
    | none ↦ none
    | some t ↦ some (record { jtok = t; error = none })
  ]

  unfoldable pub datasync_parser_get_error : Option (Parser T) → Option (List ℕ)
  datasync_parser_get_error none = some parse_err_parser_null
  datasync_parser_get_error (some p) = p.error

  -- The case `json_tokener_success`, where `t` is the tokener's state after the call.
  unfoldable pub parsed_msg : Parser T → Option Msg → Parsed T
  parsed_msg p none = record {
    parser = some (record { jtok = p.jtok; error = some parse_err_not_wc });
    result = parser_error;
    res = none;
  }
  parsed_msg p (some m) = record { parser = some p; result = parser_ok; res = some m }

  -- The `switch` on the tokener's error, where `p` has the tokener's state after the call.
  unfoldable pub parsed : Parser T → Tokens j.Value → Parsed T
  unfolding parsed_msg
  parsed p (success v) = parsed_msg p (parse_msg_json j qsort_keys v)
  parsed p continue = record { parser = some p; result = parser_continue; res = none }
  parsed p (failed d) = record {
    parser = some (record { jtok = p.jtok; error = some d });
    result = parser_error;
    res = none;
  }

  unfoldable pub parse_msg_ex : Option (Parser T) → List ℕ → Parsed T
  unfolding parsed
  parse_msg_ex none buf = record { parser = none; result = parser_error; res = none }
  parse_msg_ex (some p) buf =
      let next = parse_ex p.jtok buf in parsed (record { jtok = next.0; error = p.error }) (next.1)

  -- `wc_datasync_parse_msg`: the message, where the call returns 1.
  unfoldable pub parse_msg : List ℕ → Option Msg
  unfolding datasync_parser_new parse_msg_ex
  parse_msg str = (parse_msg_ex datasync_parser_new str).res

  parsed_msg-continue : (q : Parser T) (o : Option Msg) → (parsed_msg q o).result ≢ parser_continue
  unfolding parsed_msg
  parsed_msg-continue q none e = cc
  parsed_msg-continue q (some m) e = cc

  -- WC_PARSER_CONTINUE comes from the tokener alone.
  parsed-continue :
      (q : Parser T) (tk : Tokens j.Value) → (parsed q tk).result ≡ parser_continue → tk ≡ continue
  unfolding parsed
  parsed-continue q (success v) e = absurd (parsed_msg-continue q (parse_msg_json j qsort_keys v) e)
  parsed-continue q continue e = refl
  parsed-continue q (failed d) e = absurd cc

  -- Where the tokener, told that more bytes follow, goes on from the state it has reached, a parser that
  -- answers WC_PARSER_CONTINUE to some bytes answers to the next ones as it would have to all of them at
  -- once: the same result, the same message and the same state.
  pub parse_msg_ex-append :
      ((t : T) (a b : List ℕ)
        → (parse_ex t a).1 ≡ continue
        → parse_ex t (a ++ b) ≡ parse_ex (parse_ex t a).0 b)
      → (p : Parser T) (a b : List ℕ) → (parse_msg_ex (some p) a).result ≡ parser_continue
      → parse_msg_ex (some p) (a ++ b) ≡ parse_msg_ex (parse_msg_ex (some p) a).parser b
  unfolding parse_msg_ex
  parse_msg_ex-append goes_on p a b e =
      let q : Parser T = record { jtok = (parse_ex p.jtok a).0; error = p.error } in
      let more = parsed-continue q (parse_ex p.jtok a).1 e in
      rw (more, goes_on p.jtok a b more) refl
