-- ===== src/Domain/Protocol.antt =====
-- src/core/stackchan_domain/src/protocol.cpp: the error codes and the kinds of messages, and their
-- names on the wire.
mod Names
use stackchan_atoms3r.Base.{
  ℕ, Bool, true, false, List, [], ◌∷◌, Option, none, some, ◌==◌, if◌then◌else◌, Bytes, codes,
  bytes_eq,
}

pub data MessageKind : Type 0 where
  command result event : MessageKind

pub data ErrorCode : Type 0 where
  no_error bad_request unknown_command invalid_argument not_found unsupported estop_engaged busy
        unavailable timeout cancelled internal :
      ErrorCode

abbrev pub error_value : ErrorCode → ℕ
error_value no_error = 0
error_value bad_request = 1
error_value unknown_command = 2
error_value invalid_argument = 3
error_value not_found = 4
error_value unsupported = 5
error_value estop_engaged = 6
error_value busy = 7
error_value unavailable = 8
error_value timeout = 9
error_value cancelled = 10
error_value internal = 11

abbrev pub kind_value : MessageKind → ℕ
kind_value command = 0
kind_value result = 1
kind_value event = 2

abbrev pub error_names : List (ErrorCode × Bytes)
error_names =
    (no_error, codes "none")
    ∷ (bad_request, codes "bad_request")
    ∷ (unknown_command, codes "unknown_command")
    ∷ (invalid_argument, codes "invalid_argument")
    ∷ (not_found, codes "not_found")
    ∷ (unsupported, codes "unsupported")
    ∷ (estop_engaged, codes "estop_engaged")
    ∷ (busy, codes "busy")
    ∷ (unavailable, codes "unavailable")
    ∷ (timeout, codes "timeout")
    ∷ (cancelled, codes "cancelled")
    ∷ (internal, codes "internal")
    ∷ []

abbrev pub kind_names : List (MessageKind × Bytes)
kind_names = (command, codes "command") ∷ (result, codes "result") ∷ (event, codes "event") ∷ []

-- The loops over a table of names.
module _ {A : Type 0} where
  pub name_in : (A → ℕ) → List (A × Bytes) → Bytes → A → Bytes
  name_in value [] otherwise x = otherwise
  name_in value ((y, name) ∷ table) otherwise x =
      let rest = name_in value table otherwise x in if value y == value x then name else rest

  pub value_in : List (A × Bytes) → Bytes → Option A
  value_in [] text = none
  value_in ((y, name) ∷ table) text =
      let rest = value_in table text in if bytes_eq name text then some y else rest

unfoldable pub error_to_string : ErrorCode → Bytes
unfolding name_in
error_to_string code = name_in error_value error_names (codes "internal") code

unfoldable pub kind_to_string : MessageKind → Bytes
unfolding name_in
kind_to_string kind = name_in kind_value kind_names (codes "command") kind

pub parse_error_code : Bytes → Option ErrorCode
unfolding value_in
parse_error_code text = value_in error_names text

pub parse_message_kind : Bytes → Option MessageKind
unfolding value_in
parse_message_kind text = value_in kind_names text

unfoldable pub is_retryable : ErrorCode → Bool
is_retryable busy = true
is_retryable unavailable = true
is_retryable timeout = true
is_retryable _ = false
