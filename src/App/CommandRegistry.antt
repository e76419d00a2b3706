-- ===== src/App/CommandRegistry.antt =====
-- src/core/stackchan_app/src/command_registry.cpp: the table that is both what can be called and what is
-- advertised. A handler is a function on the payload writer, given its context and the parameters; what
-- reads the parameters is behind an interface there, and a parameter of the module.
mod Table
mod Capabilities
mod Examples
use stackchan_atoms3r.Base.{
  ℕ, zero, suc, ◌+◌, Bool, true, false, not, ◌||◌, List, [], ◌∷◌, ◌++◌, Option, none, some, ltb,
  ◌==◌, if◌then◌else◌, length, Bytes, codes, bytes_eq,
}
use stackchan_atoms3r.Domain.Protocol.{ErrorCode, unknown_command, unsupported}
use stackchan_atoms3r.Domain.JsonWriter.{
  JsonWriter, begin_object, end_object, begin_array, end_array, key, value_text, member_text,
  member_bool,
}

-- No choices is any text.
pub record ParamSpec : Type 0 where
  pub name : Bytes
  pub choices : List Bytes

pub accepts_one : List Bytes → Bytes → Bool
accepts_one [] value = false
accepts_one (c ∷ cs) value =
    let rest = accepts_one cs value in if bytes_eq c value then true else rest

pub accepts : ParamSpec → Bytes → Bool
accepts p value = if length p.choices == 0 then true else accepts_one p.choices value

pub record CommandSpec : Type 0 where
  pub name : Bytes
  pub is_async : Bool
  pub params : List ParamSpec
  pub available : Bool
  pub unavailable_reason : Bytes

abbrev pub max_commands : ℕ
max_commands = 32

module _ (ParamReader : Type 0) where
  abbrev pub Handler : Type 0
  Handler = ParamReader → JsonWriter → JsonWriter × ErrorCode

  -- `nullptr` is no handler.
  pub record Entry : Type 0 where
    pub spec : CommandSpec
    pub handler : Handler

  pub find : List Entry → Bytes → Option Entry
  find [] name = none
  find (e ∷ es) name = let rest = find es name in if bytes_eq e.spec.name name then some e else rest

  abbrev is_some : Option Entry → Bool
  is_some none = false
  is_some (some _) = true

  -- The registry is `entries_[0 .. count_)`.
  pub add : List Entry → CommandSpec → Option Handler → List Entry × Bool
  add entries spec none = (entries, false)
  add entries spec (some handler) =
      if length spec.name == 0 || length entries == max_commands
      then (entries, false)
      else if is_some (find entries spec.name)
      then (entries, false)
      else (entries ++ record { spec = spec; handler = handler } ∷ [], true)

  pub contains : List Entry → Bytes → Bool
  contains entries name = is_some (find entries name)

  -- What `dispatch` does with what it has found.
  abbrev run_entry : Option Entry → ParamReader → JsonWriter → JsonWriter × ErrorCode
  run_entry none params payload = (payload, unknown_command)
  run_entry (some e) params payload =
      if not e.spec.available then (payload, unsupported) else e.handler params payload

  pub dispatch : List Entry → Bytes → ParamReader → JsonWriter → JsonWriter × ErrorCode
  dispatch entries name = run_entry (find entries name)

pub write_choices : JsonWriter → List Bytes → JsonWriter
write_choices out [] = out
write_choices out (c ∷ cs) = write_choices (value_text out c) cs

pub write_params : JsonWriter → List ParamSpec → JsonWriter
write_params out [] = out
write_params out (p ∷ ps) =
    let named = key out p.name in
    write_params
      (if ltb 0 (length p.choices)
        then end_array (write_choices (begin_array named) p.choices)
        else value_text named (codes "string"))
      ps

-- One round of the loop of `write_capabilities`.
pub write_spec : JsonWriter → CommandSpec → JsonWriter
write_spec out spec =
    let named = member_text (begin_object out) (codes "name") spec.name in
    let marked = if spec.is_async then member_bool named (codes "async") true else named in
    let listed =
      if ltb 0 (length spec.params)
      then end_object (write_params (begin_object (key marked (codes "params"))) spec.params)
      else marked in
    end_object (
      if not spec.available
      then member_text (member_bool listed (codes "available") false) (codes "reason")
          spec.unavailable_reason
      else listed)

pub write_specs : JsonWriter → List CommandSpec → JsonWriter
write_specs out [] = out
write_specs out (s ∷ ss) = write_specs (write_spec out s) ss

module _ (ParamReader : Type 0) where
  abbrev pub specs : List (Entry ParamReader) → List CommandSpec
  specs [] = []
  specs (e ∷ es) = e.spec ∷ specs es

  pub write_capabilities : JsonWriter → List (Entry ParamReader) → JsonWriter
  write_capabilities out entries =
      end_array (write_specs (begin_array (key out (codes "capabilities"))) (specs entries))
