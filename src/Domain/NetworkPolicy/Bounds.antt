-- ===== src/Domain/NetworkPolicy/Bounds.antt =====
-- What holds of the policy after any sequence of reports.
use stackchan_atoms3r.Base.{
  ℕ, ◌≤◌, ◌<◌, max, true, false, List, [], ◌∷◌, ◌≡◌, ◌≢◌, ◌↔◌, ◌⊎◌, refl, ◌∙◌, arith,
}
use stackchan_atoms3r.Base.Words.{u8_mod, u32_mod}
use stackchan_atoms3r.Domain.NetworkPolicy.{
  NetworkPolicy, unprovisioned, connected, make_policy, set_provisioned, set_guest_count,
  on_attempt_started, on_connected, next_backoff, on_failed, should_open_access_point, Report,
  provisioned_is, guests_are, attempt_started, attempt_connected, attempt_failed, report, reports,
}

pub record IsValid (p : NetworkPolicy) : Type 0 where
  pub first_positive : 0 < p.first_backoff_ms
  pub first_word : p.first_backoff_ms < u32_mod
  pub max_word : p.max_backoff_ms < u32_mod
  pub failures_byte : p.failures < u8_mod
  pub backoff_within : p.backoff_ms ≤ max p.first_backoff_ms p.max_backoff_ms
  pub backoff_iff_failures : (p.backoff_ms ≡ 0) ↔ (p.failures ≡ 0)
  pub forgotten : p.provisioned ≡ false → p.failures ≡ 0
  pub phase_known : p.phase ≡ unprovisioned → p.provisioned ≡ false

pub make_policy-IsValid :
    (first longest limit : ℕ)
    → first < u32_mod
    → longest < u32_mod
    → IsValid (make_policy first longest limit)
unfolding make_policy
make_policy-IsValid first longest limit h k = ground arith

next_backoff_bounds :
    (first longest b : ℕ)
    → 0 < first
    → longest < u32_mod
    → b ≤ max first longest
    → (next_backoff first longest b ≤ max first longest) × (0 < next_backoff first longest b)
unfolding next_backoff
next_backoff_bounds first longest b h k l = (ground arith, ground arith)

-- Every report keeps the policy well formed.
pub report-IsValid : (p : NetworkPolicy) (r : Report) → IsValid p → IsValid (report p r)
unfolding report set_provisioned set_guest_count on_attempt_started on_connected on_failed
report-IsValid p (provisioned_is b) v = ground arith
report-IsValid p (guests_are n) v = ground arith
report-IsValid p (attempt_started now) v = ground arith
report-IsValid p attempt_connected v = ground arith
report-IsValid p (attempt_failed now) v =
    let bounds =
      next_backoff_bounds p.first_backoff_ms p.max_backoff_ms p.backoff_ms v.first_positive
        v.max_word v.backoff_within in
    record {
      first_positive = ground arith;
      first_word = ground arith;
      max_word = ground arith;
      failures_byte = ground arith;
      backoff_within = ground (arith, bounds);
      backoff_iff_failures = (
        λ e. ground (arith, bounds, v.backoff_iff_failures.0),
        λ e. ground (arith, bounds, v.backoff_iff_failures.1),
      );
      forgotten = ground arith;
      phase_known = ground arith;
    }

reports-IsValid : (p : NetworkPolicy) (rs : List Report) → IsValid p → IsValid (reports p rs)
unfolding reports
reports-IsValid p [] v = v
reports-IsValid p (r ∷ rs) v = reports-IsValid (report p r) rs (report-IsValid p r v)

report_config :
    (p : NetworkPolicy) (r : Report)
    → ((report p r).first_backoff_ms ≡ p.first_backoff_ms)
      × ((report p r).max_backoff_ms ≡ p.max_backoff_ms)
      × ((report p r).ap_after_failures ≡ p.ap_after_failures)
unfolding report set_provisioned set_guest_count on_attempt_started on_connected on_failed
report_config p (provisioned_is b) = ground arith
report_config p (guests_are n) = ground arith
report_config p (attempt_started now) = ground arith
report_config p attempt_connected = ground arith
report_config p (attempt_failed now) = ground arith

-- No report changes what was configured.
reports_config :
    (p : NetworkPolicy) (rs : List Report)
    → ((reports p rs).first_backoff_ms ≡ p.first_backoff_ms)
      × ((reports p rs).max_backoff_ms ≡ p.max_backoff_ms)
      × ((reports p rs).ap_after_failures ≡ p.ap_after_failures)
unfolding reports
reports_config p [] = (refl, refl, refl)
reports_config p (r ∷ rs) =
    let (first, longest, limit) = reports_config (report p r) rs in
    let (first_kept, longest_kept, limit_kept) = report_config p r in
    (first ∙ first_kept, longest ∙ longest_kept, limit ∙ limit_kept)

-- From construction and after any sequence of reports: the configured values are kept, a first interval
-- of 0 as 1; the interval is at most the longest one that was configured or, if the first one is
-- longer, at most the first one, an exception that network_policy.hpp does not make; it is zero
-- exactly when no failure is counted; the count of failures fits its byte, and is zero without
-- credentials; and the phase is `unprovisioned` only without credentials.
pub reports-make_policy-IsValid :
    (first longest limit : ℕ) (rs : List Report)
    → first < u32_mod
    → longest < u32_mod
    → let p = reports (make_policy first longest limit) rs in
      IsValid p
      × (p.first_backoff_ms ≡ max 1 first)
      × (p.max_backoff_ms ≡ longest)
      × (p.ap_after_failures ≡ limit)
      × (p.backoff_ms ≤ max (max 1 first) longest)
unfolding make_policy
reports-make_policy-IsValid first longest limit rs h k =
    let start = make_policy first longest limit in
    let v = reports-IsValid start rs (make_policy-IsValid first longest limit h k) in
    let (first_kept, longest_kept, limit_kept) = reports_config start rs in
    let first_is : (reports start rs).first_backoff_ms ≡ max 1 first = first_kept ∙ ground arith in
    (v, first_is, longest_kept, limit_kept, omega (arith, v.backoff_within, first_is, longest_kept))

-- After any sequence of reports, a policy without credentials wants the access point open, so that
-- the device can always be configured; and so does one with credentials that is not connected and
-- has counted as many failures as were configured.
pub access_point_reachable :
    (p : NetworkPolicy)
    → (should_open_access_point p ≡ true)
      ↔ ((p.provisioned ≡ false) ⊎ ((p.phase ≢ connected) × (p.ap_after_failures ≤ p.failures)))
unfolding should_open_access_point
access_point_reachable p = (λ h. ground arith, λ h. ground arith)

-- Credentials are what the phase should depend on, and `on_connected` does not ask for them: it
-- takes a policy with none to the connected phase.
pub on_connected_unasked :
    (p : NetworkPolicy)
    → p.provisioned ≡ false
    → ((on_connected p).phase ≡ connected) × ((on_connected p).provisioned ≡ false)
unfolding on_connected
on_connected_unasked p h = (refl, h)
