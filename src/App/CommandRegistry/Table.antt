-- ===== src/App/CommandRegistry/Table.antt =====
-- What can be called after registering.
use stackchan_atoms3r.Base.{
  true, not, ◌||◌, ◌&&◌, List, [], ◌∷◌, ◌++◌, Option, none, some, ◌≡◌, refl, ◌==◌, if◌then◌else◌,
  length, Bytes, bytes_eq, bytes_eq_iff, arith, Bool-cases, Option-cases, subst, inl, inr,
}
use stackchan_atoms3r.Domain.Protocol.{unsupported}
use stackchan_atoms3r.Domain.JsonWriter.{JsonWriter}
use stackchan_atoms3r.App.CommandRegistry.{
  CommandSpec, max_commands, Handler, Entry, find, add, contains, dispatch,
}

module _ (ParamReader : Type 0) where
  abbrev or_else :
      Option (Entry ParamReader) → Option (Entry ParamReader) → Option (Entry ParamReader)
  or_else none o = o
  or_else (some e) o = some e

  find-append :
      (es : List (Entry ParamReader)) (e : Entry ParamReader) (name : Bytes)
      → find ParamReader (es ++ e ∷ []) name
        ≡ or_else (find ParamReader es name) (if bytes_eq e.spec.name name then some e else none)
  unfolding find
  find-append [] e name = refl
  find-append (x ∷ es) e name = ground (arith, find-append es e name)

  -- Registering says yes exactly if the name is not empty, the table is not full and the name is not
  -- taken; it then adds the command behind the others, and otherwise changes nothing.
  pub add_lem :
      (es : List (Entry ParamReader)) (spec : CommandSpec) (handler : Handler ParamReader)
      → let r = add ParamReader es spec (some handler) in
        let e : Entry ParamReader = record { spec = spec; handler = handler } in
        (r.1 ≡ (
          not (length spec.name == 0 || length es == max_commands)
          && not (contains ParamReader es spec.name)))
        × (r.0 ≡ (if r.1 then es ++ e ∷ [] else es))
  unfolding add contains
  add_lem es spec handler = (ground arith, ground arith)

  -- What was added and that the name was free.
  add_done :
      (es : List (Entry ParamReader)) (spec : CommandSpec) (handler : Handler ParamReader)
      → let e : Entry ParamReader = record { spec = spec; handler = handler } in
        (add ParamReader es spec (some handler)).1 ≡ true
        → ((add ParamReader es spec (some handler)).0 ≡ es ++ e ∷ [])
          × (find ParamReader es spec.name ≡ none)
  unfolding add
  add_done es spec handler h = (ground (arith, h), ground (arith, h))

  same_name :
      (es : List (Entry ParamReader)) (a b : Bytes)
      → bytes_eq a b ≡ true
      → find ParamReader es a ≡ none
      → find ParamReader es b ≡ none
  same_name es a b e h = subst (λ n. find ParamReader es n ≡ none) ((bytes_eq_iff a b).0 e) h

  -- A command that has been registered answers to its name with its own handler if it is available, and
  -- with `unsupported` and an untouched payload if not; every other name answers as before.
  pub dispatch-add :
      (es : List (Entry ParamReader)) (spec : CommandSpec) (handler : Handler ParamReader)
      (name : Bytes) (params : ParamReader) (payload : JsonWriter)
      → let r = add ParamReader es spec (some handler) in
        r.1 ≡ true
        → dispatch ParamReader r.0 name params payload ≡ (
            if bytes_eq spec.name name
            then (if spec.available then handler params payload else (payload, unsupported))
            else dispatch ParamReader es name params payload)
  unfolding dispatch
  dispatch-add es spec handler name params payload h =
      let done = add_done es spec handler h in
      let e : Entry ParamReader = record { spec = spec; handler = handler } in
      rw (done.0, find-append es e name)
        (elim (Bool-cases (bytes_eq spec.name name)) [
          | inl same ↦ rw (same, same_name es spec.name name same done.1) (ground arith)
          | inr other ↦ rw other (elim (Option-cases (find ParamReader es name)) [
            | inl gone ↦ rw gone refl
            | inr found ↦ rw (found.1) refl
          ])
        ])
