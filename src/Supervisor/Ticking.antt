-- ===== src/Supervisor/Ticking.antt =====
-- The scheduler of `supervise_until` (lib.rs): once a minute, the tasks whose schedule matches.
use tarsk.Base.{
  Bool, List, Option, Text, [], arith, err, false, if◌then◌else◌, is_empty, is_err, keep, none, not,
  ok, some, suc, text, true, ℕ, ◌&&◌, ◌*◌, ◌++◌, ◌+◌, ◌/◌, ◌==◌, ◌||◌, ◌∷◌, ◌≡◌,
}
use tarsk.Broker.{NewJob, u32, u64}
use tarsk.Cron.{matches, parse}
use tarsk.Supervisor.{BrokerApi, Shared, Spec, call, count, count_error}
use tarsk.Wire.{MessagePack}
use tarsk.Base.Decimal.{decimal}
use tarsk.Base.Float.{Float}
use tarsk.Base.Int.{int_eq, negsuc, pos, ℤ}
use tarsk.Wire.Chain.{no_arguments}
use tarsk.Supervisor.Settle.Exactly.{answer}

abbrev pub decimal_int : ℤ → Text
decimal_int (pos n) = decimal n
decimal_int (negsuc n) = text "-" ++ decimal (suc n)

abbrev pub is_due : {fl : Float} → ℤ → Text × Spec fl → Bool
is_due instant (name, spec) =
    not (is_empty spec.cron)
    && elim (parse spec.cron) [ none ↦ false | some schedule ↦ matches schedule instant ]

abbrev pub cron_job : {fl : Float} → MessagePack → Text → Spec fl → (minute : ℤ) → NewJob
cron_job pack name spec minute = record {
  id = text "cron-" ++ name ++ text "-" ++ decimal_int minute;
  queue = spec.queue;
  name = name;
  payload = no_arguments pack;
  timeout_ms = u32 spec.timeout_ms;
  chain = [];
  meta = [];
  expires_ms = 0;
}

module _ {fl : Float} {api : BrokerApi fl} (pack : MessagePack) where
  abbrev pub push_due : Text → Spec fl → (minute : ℤ) → Shared api → Shared api
  push_due name spec minute s =
      let (answer, after) = call (api.push (cron_job pack name spec minute) 0) s in
      if is_err answer
      then count_error after
      else count (λ c. record c { cron_fired = u64 (c.cron_fired + 1) }) after

  unfoldable pub fire_one : (minute : ℤ) → Text × Spec fl → Shared api → Shared api
  fire_one minute (name, spec) s =
      let (answer, after) = call (api.claim_tick name minute) s in
      elim answer [
        | err ↦ count_error after
        | ok won ↦ if won then push_due name spec minute after else after
      ]

  unfoldable pub fire_all : (minute : ℤ) → List (Text × Spec fl) → Shared api → Shared api
  fire_all minute [] s = s
  fire_all minute (entry ∷ rest) s = fire_all minute rest (fire_one minute entry s)

  -- One turn of the loop, at `now` in seconds: `fired` is the last minute that it fired. The
  -- minute is 60 seconds long, so `minute * 60` is the start of the minute of `now`.
  unfoldable pub cron_turn : (now : ℕ) → (fired : Option ℤ) → Shared api → Option ℤ × Shared api
  cron_turn now fired s =
      let minute = pos (now / 60) in
      let is_new : Bool = elim fired [ none ↦ true | some last ↦ not (last == minute) ] in
      if s.done || not is_new
      then (fired, s)
      else (some minute, fire_all minute (keep (is_due (pos (now / 60 * 60))) s.specs) s)

  -- A worker fires a minute once: a second turn of the loop in the minute of the turn before
  -- changes nothing.
  cron_turn_once :
      (now again : ℕ) (fired : Option ℤ) (s : Shared api)
      → now / 60 ≡ again / 60
      → let (last, after) = cron_turn now fired s in cron_turn again last after ≡ (last, after)
  unfolding cron_turn
  cron_turn_once now again fired s same =
      ground (arith, same, int_eq.beq_iff (pos (now / 60)) (pos (again / 60)))
