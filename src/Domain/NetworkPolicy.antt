-- ===== src/Domain/NetworkPolicy.antt =====
-- src/core/stackchan_domain/src/network_policy.cpp: when to reconnect and when to open an access
-- point. Fields of type `std::uint8_t` and `std::uint32_t` are numbers below 2 ^ 8 and 2 ^ 32.
mod Bounds
mod Backoff
mod Examples
use stackchan_atoms3r.Base.{
  ℕ, ◌+◌, ◌-◌, ◌*◌, ◌%◌, Bool, true, false, not, ◌&&◌, ◌||◌, List, [], ◌∷◌, ltb, leb, ◌==◌,
  if◌then◌else◌,
}
use stackchan_atoms3r.Base.Words.{u32_mod}
use stackchan_atoms3r.Clock.{elapsed}

pub data NetworkPhase : Type 0 where
  unprovisioned connecting connected backoff : NetworkPhase

abbrev pub is_connecting : NetworkPhase → Bool
is_connecting connecting = true
is_connecting _ = false

abbrev pub is_connected : NetworkPhase → Bool
is_connected connected = true
is_connected _ = false

pub record NetworkPolicy : Type 0 where
  pub first_backoff_ms : ℕ
  pub max_backoff_ms : ℕ
  pub ap_after_failures : ℕ
  pub phase : NetworkPhase
  pub provisioned : Bool
  pub guests : ℕ
  pub failures : ℕ
  pub backoff_ms : ℕ
  pub backoff_since : ℕ

-- The constructor.
pub make_policy : ℕ → ℕ → ℕ → NetworkPolicy
make_policy first_backoff_ms max_backoff_ms ap_after_failures = record {
  first_backoff_ms = if first_backoff_ms == 0 then 1 else first_backoff_ms;
  max_backoff_ms = max_backoff_ms;
  ap_after_failures = ap_after_failures;
  phase = unprovisioned;
  provisioned = false;
  guests = 0;
  failures = 0;
  backoff_ms = 0;
  backoff_since = 0;
}

pub set_provisioned : NetworkPolicy → Bool → NetworkPolicy
set_provisioned p provisioned =
    if not provisioned
    then record p { provisioned = provisioned; phase = unprovisioned; failures = 0; backoff_ms = 0 }
    else record p {
      provisioned = provisioned;
      failures = 0;
      backoff_ms = 0;
      backoff_since = 0;
      phase =
          if not (is_connecting p.phase) && not (is_connected p.phase) then backoff else p.phase;
    }

pub set_guest_count : NetworkPolicy → ℕ → NetworkPolicy
set_guest_count p guests = record p { guests = guests }

pub on_attempt_started : NetworkPolicy → ℕ → NetworkPolicy
on_attempt_started p now_ms = if not p.provisioned then p else record p { phase = connecting }

pub on_connected : NetworkPolicy → NetworkPolicy
on_connected p = record p { phase = connected; failures = 0; backoff_ms = 0 }

-- The interval after one more failure.
next_backoff : ℕ → ℕ → ℕ → ℕ
next_backoff first_backoff_ms max_backoff_ms backoff_ms =
    if backoff_ms == 0
    then first_backoff_ms
    else if ltb backoff_ms max_backoff_ms
    then (let doubled = backoff_ms * 2 % u32_mod in
        if ltb doubled backoff_ms || ltb max_backoff_ms doubled then max_backoff_ms else doubled)
    else backoff_ms

pub on_failed : NetworkPolicy → ℕ → NetworkPolicy
on_failed p now_ms = if not p.provisioned then p else record p {
  failures = if ltb p.failures 255 then p.failures + 1 else p.failures;
  backoff_ms = next_backoff p.first_backoff_ms p.max_backoff_ms p.backoff_ms;
  backoff_since = now_ms;
  phase = backoff;
}

pub should_attempt : NetworkPolicy → ℕ → Bool
should_attempt p now_ms =
    if not p.provisioned || (is_connecting p.phase || is_connected p.phase)
    then false
    else if ltb 0 p.guests && ltb 0 p.failures
    then false
    else leb p.backoff_ms (elapsed p.backoff_since now_ms)

pub wait_remaining_ms : NetworkPolicy → ℕ → ℕ
wait_remaining_ms p now_ms =
    if should_attempt p now_ms
    then 0
    else (let waited = elapsed p.backoff_since now_ms in
        if leb p.backoff_ms waited then 0 else p.backoff_ms - waited)

pub should_open_access_point : NetworkPolicy → Bool
should_open_access_point p =
    if not p.provisioned
    then true
    else if is_connected p.phase
    then false
    else leb p.ap_after_failures p.failures

-- A call of one of the five operations that change the policy.
pub data Report : Type 0 where
  provisioned_is : Bool → Report
  guests_are : ℕ → Report
  attempt_started : ℕ → Report
  attempt_connected : Report
  attempt_failed : ℕ → Report

pub report : NetworkPolicy → Report → NetworkPolicy
report p (provisioned_is b) = set_provisioned p b
report p (guests_are n) = set_guest_count p n
report p (attempt_started now) = on_attempt_started p now
report p attempt_connected = on_connected p
report p (attempt_failed now) = on_failed p now

pub reports : NetworkPolicy → List Report → NetworkPolicy
reports p [] = p
reports p (r ∷ rs) = reports (report p r) rs
