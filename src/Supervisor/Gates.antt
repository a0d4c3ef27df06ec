-- ===== src/Supervisor/Gates.antt =====
-- The four gates that a claimed job passes before it is dispatched (in the `fill!` of `serve_inner`,
-- lib.rs): for staleness, rate, concurrency and cancellation.
use tarsk.Base.{
  Bool, Option, Text, contains, err, if◌then◌else◌, ltb, nat_eq, none, not, ok, some, text, text_eq,
  ℕ, ◌&&◌, ◌++◌, ◌+◌, ◌-◌, ◌==◌,
}
use tarsk.Broker.{as_millis, from_millis, u64}
use tarsk.Supervisor.{
  BrokerApi, Job, Outcome, Shared, call, count, count_error, nack, slot_key, spec_field,
}
use tarsk.Base.Decimal.{decimal}
use tarsk.Base.Dict.{lookup}
use tarsk.Base.Float.{Float}
use tarsk.Supervisor.Settle.Exactly.{answer}

pub data Gate : Type 0 where
  pass : Gate
  hand_back : (delay : ℕ) → Gate
  end_with : Outcome → Gate

pub record Pace : Type 0 where
  pub lease_grace : ℕ
  pub claim_block : ℕ

abbrev pub expired_outcome : (waited expires_ms : ℕ) → Outcome
expired_outcome waited expires_ms = nack (text "Expired") (
    text "waited "
    ++ decimal waited
    ++ text "ms for a worker, past its expires of "
    ++ decimal expires_ms
    ++ text "ms")

module _ {fl : Float} {api : BrokerApi fl} where
  abbrev pub expires_of : Job api.Acker → Shared api → ℕ
  expires_of job s =
      if ltb 0 job.expires_ms
      then job.expires_ms
      else spec_field 0 (λ spec. spec.expires_ms) job.name s

  abbrev pub is_stale : (wall_ms : ℕ) → Job api.Acker → Shared api → Bool
  is_stale wall_ms job s =
      ltb 0 (expires_of job s)
      && ltb 0 job.ready_at_ms
      && ltb (expires_of job s) (wall_ms - job.ready_at_ms)

  unfoldable pub stale_gate : (wall_ms : ℕ) → Job api.Acker → Shared api → Gate × Shared api
  stale_gate wall_ms job s =
      if is_stale wall_ms job s
      then (
        end_with (expired_outcome (wall_ms - job.ready_at_ms) (expires_of job s)),
        count (λ c. record c { expired = u64 (c.expired + 1) }) s,
      )
      else (pass, s)

  abbrev pub rate_limit : Text → Shared api → Option (fl.F64 × ℕ)
  rate_limit name s = elim (lookup name s.specs) [
    | none ↦ none
    | some spec ↦
        if fl.less (fl.of_ℕ 0) spec.rate_per_sec
        then some (spec.rate_per_sec, spec.rate_burst)
        else none
  ]

  unfoldable pub rate_gate : Job api.Acker → Shared api → Gate × Shared api
  rate_gate job s = elim (rate_limit job.name s) [
    | none ↦ (pass, s)
    | some limit ↦
        let (answer, after) = call (api.take_token job.name limit.0 limit.1) s in
        elim answer [
          | err ↦ (hand_back (from_millis 1000), count_error after)
          | ok wait_ms ↦ if wait_ms == 0 then (pass, after) else (
            hand_back (from_millis wait_ms),
            count (λ c. record c { rate_limited = u64 (c.rate_limited + 1) }) after,
          )
        ]
  ]

  abbrev pub lease_of : Pace → Text → Shared api → ℕ
  lease_of pace name s =
      u64 (spec_field 0 (λ spec. spec.timeout_ms) name s + u64 (as_millis pace.lease_grace))

  unfoldable pub slot_gate : Pace → Job api.Acker → Shared api → Gate × Shared api
  slot_gate pace job s =
      let limit = spec_field 0 (λ spec. spec.max_concurrency) job.name s in
      let (answer, after) =
        call (api.acquire_slot job.name (slot_key job) limit (lease_of pace job.name s)) s in
      if not (ltb 0 limit) then (pass, s) else elim answer [
        | err ↦ (hand_back (from_millis 1000), count_error after)
        | ok granted ↦ if granted then (pass, after) else (
          hand_back (from_millis 250),
          count (λ c. record c { at_capacity = u64 (c.at_capacity + 1) }) after,
        )
      ]

  abbrev pub is_revoked : Job api.Acker → Shared api → Bool
  is_revoked job s = contains s.revoked job.id

  unfoldable pub revoked_gate : Job api.Acker → Shared api → Gate × Shared api
  revoked_gate job s =
      if is_revoked job s
      then (end_with (nack (text "Cancelled") (text "cancelled before it started")), s)
      else (pass, s)

  abbrev pub and_next : Gate × Shared api → (Shared api → Gate × Shared api) → Gate × Shared api
  and_next first next_gate = elim first.0 [
    | pass ↦ next_gate first.1
    | hand_back delay ↦ first
    | end_with outcome ↦ first
  ]

  unfoldable pub admit : Pace → (wall_ms : ℕ) → Job api.Acker → Shared api → Gate × Shared api
  admit pace wall_ms job s =
      and_next (and_next (and_next (stale_gate wall_ms job s) (rate_gate job)) (slot_gate pace job))
        (revoked_gate job)
