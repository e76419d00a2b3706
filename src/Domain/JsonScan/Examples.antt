-- ===== src/Domain/JsonScan/Examples.antt =====
-- The object {"a":1,"b":"x\n"} and the text of its string.
use stackchan_atoms3r.Base.{
  ◌&&◌, [], ◌∷◌, ◌++◌, none, some, ◌≡◌, leb, ltb, if◌then◌else◌, codes, arith,
}
use stackchan_atoms3r.Base.Int.{negsuc}
use stackchan_atoms3r.Domain.JsonWriter.Document.{
  text, number, integer, object, Members, end, member, escape, escape_char, render,
}
use stackchan_atoms3r.Domain.JsonScan.{
  parsed, undefined, int64_bound, find_member, json_find_integer, json_unescape,
}
use stackchan_atoms3r.Base.{Bytes, bytes_eq, bytes_eq_iff}
use stackchan_atoms3r.Domain.JsonScan.{find_member_loop}
use stackchan_atoms3r.Domain.JsonScan.Progress.{find_member_loop_enough}
use stackchan_atoms3r.Domain.JsonScan.Found.{lookup, find_member-render}
use stackchan_atoms3r.Domain.JsonScan.Integers.{join, Lacks, json_find_integer-render}
use stackchan_atoms3r.Domain.JsonScan.Unescape.{all_short, json_unescape-escape}

abbrev two_members : Members
two_members = member (codes "a") (number 1) (member (codes "b") (text (b'x' ∷ 10 ∷ [])) end)

two_members_lack_c : Lacks (escape (codes "c")) two_members
unfolding escape escape_char bytes_eq
two_members_lack_c = (
  λ h. absurd (ground (arith, (bytes_eq_iff (codes "a") (codes "c")).1 h)),
  (λ h. absurd (ground (arith, (bytes_eq_iff (codes "b") (codes "c")).1 h)), tt),
)

find_member-render_example :
    find_member (render (object two_members) ++ codes " ") (codes "b")
    ≡ lookup (codes "b") two_members
find_member-render_example = find_member-render two_members (codes "b") (codes " ")

json_find_integer-render_example :
    json_find_integer
      (render (object (join two_members (member (codes "c") (integer (negsuc 4)) end))) ++ [])
      (escape (codes "c"))
    ≡ (if ltb 5 int64_bound then parsed (negsuc 4) else undefined)
json_find_integer-render_example =
    json_find_integer-render (codes "c") [] (negsuc 4) two_members end (omega arith)
      two_members_lack_c

json_unescape-escape_example :
    json_unescape (escape (b'x' ∷ 10 ∷ [])) 2
    ≡ (if all_short (b'x' ∷ 10 ∷ []) && leb 2 2 then some (b'x' ∷ 10 ∷ []) else none)
json_unescape-escape_example = json_unescape-escape (b'x' ∷ 10 ∷ []) 2

-- The text behind the opening brace of {"a":1}.
abbrev one_member : Bytes
one_member = codes "\"a\":1}"

find_member_loop_enough_example :
    find_member_loop 7 (codes "a") one_member ≡ find_member_loop 90 (codes "a") one_member
find_member_loop_enough_example =
    find_member_loop_enough 7 90 (codes "a") one_member (omega arith) (omega arith)
