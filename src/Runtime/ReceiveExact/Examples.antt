-- ===== src/Runtime/ReceiveExact/Examples.antt =====
-- A transport that gives two bytes at a time.
use stackchan_atoms3r.Base.{ℕ, false, ◌≡◌, ◌↔◌}
use stackchan_atoms3r.Base.Int.{ℤ, pos}
use stackchan_atoms3r.Runtime.ReceiveExact.{complete, receive_exact}
use stackchan_atoms3r.Runtime.ReceiveExact.Filling.{Gives, receive_exact-complete}

abbrev two_at_a_time : ℕ → ℕ → ℤ
two_at_a_time number room = pos 2

receive_exact-complete_example :
    (receive_exact two_at_a_time false 4 ≡ complete) ↔ Gives two_at_a_time 0 4
receive_exact-complete_example = receive_exact-complete two_at_a_time 4
