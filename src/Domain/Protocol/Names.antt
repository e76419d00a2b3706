-- ===== src/Domain/Protocol/Names.antt =====
-- Parsing a name gives the code with that name, and no other text has one.
use stackchan_atoms3r.Base.{
  List, [], ◌∷◌, some, ◌≡◌, ◌↔◌, refl, sym, ◌∙◌, Bytes, bytes_eq, bytes_eq_iff, All, arith, ap,
}
use stackchan_atoms3r.Domain.Protocol.{
  MessageKind, command, result, event, ErrorCode, no_error, bad_request, unknown_command,
  invalid_argument, not_found, unsupported, estop_engaged, busy, unavailable, timeout, cancelled,
  internal, error_names, kind_names, name_in, value_in, error_to_string, kind_to_string,
  parse_error_code, parse_message_kind,
}

module _ {A : Type 0} (print : A → Bytes) where
  -- What a table of printed names finds is printed as the text.
  value_in-print :
      (table : List (A × Bytes)) (text : Bytes) (x : A)
      → All (λ entry. print entry.0 ≡ entry.1) table
      → value_in table text ≡ some x
      → print x ≡ text
  unfolding value_in
  value_in-print [] text x h found = ground (arith, found)
  value_in-print ((y, name) ∷ table) text x h found =
      ground (arith, bytes_eq_iff name text, h.0, found, value_in-print table text x h.1)

parse_error_code-print : (code : ErrorCode) → parse_error_code (error_to_string code) ≡ some code
unfolding error_to_string parse_error_code value_in name_in bytes_eq
parse_error_code-print no_error = refl
parse_error_code-print bad_request = refl
parse_error_code-print unknown_command = refl
parse_error_code-print invalid_argument = refl
parse_error_code-print not_found = refl
parse_error_code-print unsupported = refl
parse_error_code-print estop_engaged = refl
parse_error_code-print busy = refl
parse_error_code-print unavailable = refl
parse_error_code-print timeout = refl
parse_error_code-print cancelled = refl
parse_error_code-print internal = refl

parse_message_kind-print :
    (kind : MessageKind) → parse_message_kind (kind_to_string kind) ≡ some kind
unfolding kind_to_string parse_message_kind value_in name_in bytes_eq
parse_message_kind-print command = refl
parse_message_kind-print result = refl
parse_message_kind-print event = refl

error_names_printed : All (λ entry. error_to_string entry.0 ≡ entry.1) error_names
unfolding error_to_string name_in
error_names_printed =
    ((
      refl,
      (refl, (refl, (refl, (refl, (refl, (refl, (refl, (refl, (refl, (refl, (refl, tt))))))))))),
    ))

kind_names_printed : All (λ entry. kind_to_string entry.0 ≡ entry.1) kind_names
unfolding kind_to_string name_in
kind_names_printed = (refl, (refl, (refl, tt)))

-- A text parses to an error code exactly if it is the name of that code.
pub parse_error_code_iff :
    (text : Bytes) (code : ErrorCode)
    → (parse_error_code text ≡ some code) ↔ (error_to_string code ≡ text)
unfolding parse_error_code
parse_error_code_iff text code = (
  value_in-print error_to_string error_names text code error_names_printed,
  λ e. ap parse_error_code (sym e) ∙ parse_error_code-print code,
)

-- A text parses to a kind of message exactly if it is the name of that kind.
pub parse_message_kind_iff :
    (text : Bytes) (kind : MessageKind)
    → (parse_message_kind text ≡ some kind) ↔ (kind_to_string kind ≡ text)
unfolding parse_message_kind
parse_message_kind_iff text kind = (
  value_in-print kind_to_string kind_names text kind kind_names_printed,
  λ e. ap parse_message_kind (sym e) ∙ parse_message_kind-print kind,
)
