-- ===== src/App/CommandRegistry/Capabilities.antt =====
-- What is advertised is what can be called.
use stackchan_atoms3r.Base.{
  true, false, not, List, [], ◌∷◌, ◌≡◌, ◌↔◌, ◌⊎◌, refl, ap, ◌∙◌, ltb, if◌then◌else◌, length, Bytes,
  codes, bytes_eq_iff, arith,
}
use stackchan_atoms3r.Domain.JsonWriter.{
  JsonWriter, begin_object, begin_array, end_array, key, value_text, value_bool,
}
use stackchan_atoms3r.Domain.JsonWriter.Document.{
  Json, text, flag, array, object, Items, nil, cons, Members, end, member, emit, emit_items,
  emit_members,
}
use stackchan_atoms3r.App.CommandRegistry.{
  ParamSpec, CommandSpec, Entry, find, contains, specs, write_choices, write_params, write_spec,
  write_specs, write_capabilities,
}

abbrev choice_items : List Bytes → Items
choice_items [] = nil
choice_items (c ∷ cs) = cons (text c) (choice_items cs)

abbrev param_value : ParamSpec → Json
param_value p =
    if ltb 0 (length p.choices) then array (choice_items p.choices) else text (codes "string")

abbrev param_members : List ParamSpec → Members
param_members [] = end
param_members (p ∷ ps) = member p.name (param_value p) (param_members ps)

abbrev unavailable_of : CommandSpec → Members
unavailable_of spec =
    if not spec.available
    then member (codes "available") (flag false)
        (member (codes "reason") (text spec.unavailable_reason) end)
    else end

abbrev params_of : CommandSpec → Members → Members
params_of spec ms =
    if ltb 0 (length spec.params)
    then member (codes "params") (object (param_members spec.params)) ms
    else ms

-- The entry of a command: its name, and what is not the ordinary case.
abbrev pub capability_of : CommandSpec → Json
capability_of spec = object (
    member (codes "name") (text spec.name) (
      if spec.is_async
      then member (codes "async") (flag true) (params_of spec (unavailable_of spec))
      else params_of spec (unavailable_of spec)))

abbrev pub capability_items : List CommandSpec → Items
capability_items [] = nil
capability_items (s ∷ ss) = cons (capability_of s) (capability_items ss)

write_choices-emit :
    (out : JsonWriter) (cs : List Bytes) → write_choices out cs ≡ emit_items out (choice_items cs)
unfolding write_choices emit emit_items
write_choices-emit out [] = refl
write_choices-emit out (c ∷ cs) = write_choices-emit (value_text out c) cs

param_value-emit :
    (named : JsonWriter) (p : ParamSpec)
    → (if ltb 0 (length p.choices)
        then end_array (write_choices (begin_array named) p.choices)
        else value_text named (codes "string"))
      ≡ emit named (param_value p)
unfolding emit
param_value-emit named p = ground (arith, write_choices-emit (begin_array named) p.choices)

write_params-emit :
    (out : JsonWriter) (ps : List ParamSpec)
    → write_params out ps ≡ emit_members out (param_members ps)
unfolding write_params emit_members
write_params-emit out [] = refl
write_params-emit out (p ∷ ps) =
    ap (λ w. write_params w ps) (param_value-emit (key out p.name) p)
    ∙ write_params-emit (emit (key out p.name) (param_value p)) ps

write_spec-emit :
    (out : JsonWriter) (spec : CommandSpec) → write_spec out spec ≡ emit out (capability_of spec)
unfolding write_spec emit emit_members
write_spec-emit out spec =
    let named = value_text (key (begin_object out) (codes "name")) spec.name in
    let marked = value_bool (key named (codes "async")) true in
    ground (
      arith,
      write_params-emit (begin_object (key named (codes "params"))) spec.params,
      write_params-emit (begin_object (key marked (codes "params"))) spec.params,
    )

write_specs-emit :
    (out : JsonWriter) (ss : List CommandSpec)
    → write_specs out ss ≡ emit_items out (capability_items ss)
unfolding write_specs emit_items
write_specs-emit out [] = refl
write_specs-emit out (s ∷ ss) =
    ap (λ w. write_specs w ss) (write_spec-emit out s)
    ∙ write_specs-emit (emit out (capability_of s)) ss

module _ (ParamReader : Type 0) where
  -- The capabilities are written as the array of the entries of all registered commands, in order, the
  -- unavailable ones included.
  pub write_capabilities-emit :
      (out : JsonWriter) (es : List (Entry ParamReader))
      → write_capabilities ParamReader out es
        ≡ emit_members out
            (member (codes "capabilities") (array (capability_items (specs ParamReader es))) end)
  unfolding write_capabilities emit emit_members
  write_capabilities-emit out es = ap end_array (write_specs-emit _ (specs ParamReader es))

  abbrev pub Advertised : Bytes → List CommandSpec → Type 0
  Advertised name [] = ⊥
  Advertised name (s ∷ ss) = (s.name ≡ name) ⊎ Advertised name ss

  -- A name is advertised exactly if a command is registered under it.
  pub Advertised-contains :
      (name : Bytes) (es : List (Entry ParamReader))
      → Advertised name (specs ParamReader es) ↔ (contains ParamReader es name ≡ true)
  unfolding contains find
  Advertised-contains name [] = ground arith
  Advertised-contains name (e ∷ es) =
      ground (arith, bytes_eq_iff e.spec.name name, Advertised-contains name es)
