-- ===== src/App/CommandRegistry/Examples.antt =====
-- A registry with one command that works and one that this unit cannot do.
use stackchan_atoms3r.Base.{
  Bool, true, false, if◌then◌else◌, List, [], ◌∷◌, some, ◌≡◌, refl, codes, bytes_eq,
}
use stackchan_atoms3r.Domain.Protocol.{no_error, unsupported}
use stackchan_atoms3r.Domain.JsonWriter.{make_writer, null_value}
use stackchan_atoms3r.Domain.JsonWriter.Document.{array, end, member, emit_members}
use stackchan_atoms3r.App.CommandRegistry.{
  CommandSpec, Handler, Entry, find, add, dispatch, specs, write_capabilities,
}
use stackchan_atoms3r.App.CommandRegistry.Table.{dispatch-add}
use stackchan_atoms3r.App.CommandRegistry.Capabilities.{capability_items, write_capabilities-emit}

-- A reader that has one flag.
abbrev Flag : Type 0
Flag = Bool

abbrev say : Handler Flag
say params payload = (null_value payload, no_error)

abbrev say_spec : CommandSpec
say_spec = record {
  name = codes "say";
  is_async = true;
  params = record { name = codes "mood"; choices = codes "sad" ∷ [] } ∷ [];
  available = true;
  unavailable_reason = [];
}

abbrev move_spec : CommandSpec
move_spec = record {
  name = codes "move";
  is_async = false;
  params = [];
  available = false;
  unavailable_reason = codes "no servo";
}

abbrev one_command : List (Entry Flag)
one_command = record { spec = say_spec; handler = say } ∷ []

dispatch-add_example :
    dispatch Flag (add Flag one_command move_spec (some say)).0 (codes "move") true (make_writer 50)
    ≡ (if bytes_eq (codes "move") (codes "move")
        then (make_writer 50, unsupported)
        else dispatch Flag one_command (codes "move") true (make_writer 50))
unfolding add find bytes_eq
dispatch-add_example =
    dispatch-add Flag one_command move_spec say (codes "move") true (make_writer 50) refl

write_capabilities-emit_example :
    write_capabilities Flag (make_writer 200) one_command
    ≡ emit_members
        (make_writer 200)
        (member (codes "capabilities") (array (capability_items (specs Flag one_command))) end)
write_capabilities-emit_example = write_capabilities-emit Flag (make_writer 200) one_command
