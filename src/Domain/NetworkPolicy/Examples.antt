-- ===== src/Domain/NetworkPolicy/Examples.antt =====
-- The default configuration (one second, at most a minute, three failures), and one of long intervals.
use stackchan_atoms3r.Base.{◌*◌, ◌^◌, ◌≤◌, min, max, true, false, List, [], ◌∷◌, ◌≡◌, refl, arith}
use stackchan_atoms3r.Domain.NetworkPolicy.{
  NetworkPolicy, backoff, make_policy, Report, provisioned_is, attempt_started, attempt_connected,
  attempt_failed, reports,
}
use stackchan_atoms3r.Domain.NetworkPolicy.Bounds.{IsValid, reports-make_policy-IsValid}
use stackchan_atoms3r.Domain.NetworkPolicy.Backoff.{fail_all, backoff-fail_all}

abbrev fresh : NetworkPolicy
fresh = record {
  first_backoff_ms = 1000;
  max_backoff_ms = 60000;
  ap_after_failures = 3;
  phase = backoff;
  provisioned = true;
  guests = 0;
  failures = 0;
  backoff_ms = 0;
  backoff_since = 0;
}

abbrev some_reports : List Report
some_reports =
    provisioned_is true
    ∷ attempt_started 5
    ∷ attempt_failed 9
    ∷ attempt_started 1100
    ∷ attempt_failed 1200
    ∷ attempt_connected
    ∷ provisioned_is false
    ∷ []

reports-make_policy-IsValid_example :
    let p = reports (make_policy 1000 60000 3) some_reports in
    IsValid p
    × (p.first_backoff_ms ≡ max 1 1000)
    × (p.max_backoff_ms ≡ 60000)
    × (p.ap_after_failures ≡ 3)
    × (p.backoff_ms ≤ max (max 1 1000) 60000)
reports-make_policy-IsValid_example =
    reports-make_policy-IsValid 1000 60000 3 some_reports (omega arith) (omega arith)

-- Intervals that are so long that the first doubling leaves 32 bits.
abbrev long_waits : NetworkPolicy
long_waits = record fresh { first_backoff_ms = 2147483648; max_backoff_ms = 4294967295 }

long_waits-IsValid : IsValid long_waits
long_waits-IsValid = ground arith

backoff-fail_all_example :
    (fail_all long_waits (90 ∷ 70 ∷ [])).backoff_ms ≡ min (2147483648 * 2 ^ 1) 4294967295
backoff-fail_all_example =
    backoff-fail_all long_waits 90 (70 ∷ []) long_waits-IsValid refl refl (omega arith)
