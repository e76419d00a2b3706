-- ===== src/Domain/JsonWriter/Examples.antt =====
-- The document {"a":[1,"x"]} in a buffer of twenty bytes.
use stackchan_atoms3r.Base.{◌≤◌, true, ◌≡◌, ◌↔◌, length, codes, arith}
use stackchan_atoms3r.Domain.JsonWriter.{make_writer, valid}
use stackchan_atoms3r.Domain.JsonWriter.Document.{
  Json, text, number, array, object, nil, cons, end, member, emit, render, height,
}
use stackchan_atoms3r.Domain.JsonWriter.Limits.{emit-make_writer}

abbrev small : Json
small = object (member (codes "a") (array (cons (number 1) (cons (text (codes "x")) nil))) end)

emit-make_writer_example :
    let w = emit (make_writer 20) small in
    ((valid w ≡ true) ↔ (length (render small) ≤ 20))
    × (valid w ≡ true → w.out ≡ render small)
    × (w.required ≡ length (render small))
emit-make_writer_example = emit-make_writer small 20 (unfold height in omega arith)
