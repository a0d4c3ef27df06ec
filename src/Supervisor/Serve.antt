-- ===== src/Supervisor/Serve.antt =====
-- The loop of one slot over one child (`serve_inner`, lib.rs): the frames that the child sends, the
-- ticks of the timer and the replacement that starts beside it.
pub mod Acks
pub mod Retiring
use tarsk.Base.{
  Bool, List, Option, Text, [], false, if◌then◌else◌, leb, length, ltb, nat_eq, none, not, some,
  text, text_eq, true, ℕ, ◌&&◌, ◌++◌, ◌+◌, ◌-◌, ◌==◌, ◌∷◌,
}
use tarsk.Broker.{u64}
use tarsk.Ceiling.{Pressure, hard_max_rss_reason}
use tarsk.Supervisor.{BrokerApi, Outcome, Shared, count, nack}
use tarsk.Wire.{
  MessagePack, Value, array_of, as_slice, as_str, as_u64, decode, field, policy, read_directive,
  string,
}
use tarsk.Base.Dict.{lookup, remove}
use tarsk.Base.Float.{Float}
use tarsk.Supervisor.Checking.{
  Cfg, Meets, Next, Serving, at_least, await_spare, check, died, finished, going, leaves, on_child,
  over_hard_limit, panicked, parked, recycle,
}
use tarsk.Supervisor.Dispatch.{
  Child, Filled, fill, fill_dead, fill_done, fill_empty, fill_sent, is_idle,
}
use tarsk.Supervisor.Settle.{keep_progress}

-- Does a frame hold at least `n` values, as its handler takes for granted?
abbrev pub holds : List Value → ℕ → Bool
holds vs n = leb n (length vs)

abbrev pub drain_frame : Value
drain_frame = array_of (string (text "Drain") ∷ [])

abbrev pub over_hard_max : Cfg → Option ℕ → Bool
over_hard_max cfg rss = ltb 0 cfg.limits.hard_max_rss && at_least rss cfg.limits.hard_max_rss

module _ {fl : Float} {api : BrokerApi fl} where
  abbrev pub on_filled :
      Bool → Option Filled × Shared api × Child api → Serving api → Next × Shared api × Serving api
  on_filled ready (none, s, child) v = (parked, s, record v { child = child })
  on_filled ready (some fill_dead, s, child) v = (leaves died, s, record v { child = child })
  on_filled true (some fill_done, s, child) v = (
    leaves finished,
    s,
    record v { child = record child { frames = drain_frame ∷ child.frames } },
  )
  on_filled false (some fill_done, s, child) v = (going, s, record v { child = child })
  on_filled ready (some fill_sent, s, child) v = (going, s, record v { child = child })
  on_filled ready (some fill_empty, s, child) v = (going, s, record v { child = child })

  unfoldable pub on_ready :
      Cfg → Meets api → Shared api → Serving api → Next × Shared api × Serving api
  on_ready cfg w s v =
      let (reading, checked_s, checked) = check cfg w s v in
      elim reading.trigger [
        | some why ↦ (leaves (recycle why), checked_s, await_spare w checked)
        | none ↦
            let freed = on_child (λ child. record child { free = u64 (child.free + 1) }) checked in
            on_filled true (fill cfg.pace w.moments fill_empty checked_s freed.child) freed
      ]

  -- An answer to a task that is in flight goes to the settle task; any other is ignored.
  unfoldable pub on_answer : Meets api → ℕ → Outcome → Serving api → Next × Serving api
  on_answer w task_id outcome v = elim (lookup task_id v.child.inflight) [
    | none ↦ (going, v)
    | some job ↦
        let kept =
          on_child (λ child. record child { inflight = remove task_id child.inflight }) v in
        if w.settle_open
        then (
          going,
          on_child
              (λ child. record child {
                to_settle = child.to_settle ++ ((job, outcome) ∷ []);
                tasks_done = u64 (child.tasks_done + 1);
              })
              kept,
        )
        else (leaves died, kept)
  ]

  unfoldable pub on_ack : Meets api → List Value → Serving api → Next × Serving api
  on_ack w vs v = if not (holds vs 3) then (panicked, v) else elim (field as_u64 vs 1) [
    | none ↦ (leaves died, v)
    | some task_id ↦ elim (field as_slice vs 2) [
      | none ↦ (leaves died, v)
      | some result ↦
          on_answer w task_id
            (record {
              succeeded = true;
              result = result;
              error_type = [];
              traceback = [];
              directive = policy;
            })
            v
    ]
  ]

  unfoldable pub on_nack : Meets api → List Value → Serving api → Next × Serving api
  on_nack w vs v = if not (holds vs 4) then (panicked, v) else elim (field as_u64 vs 1) [
    | none ↦ (leaves died, v)
    | some task_id ↦ elim (field as_str vs 2) [
      | none ↦ (leaves died, v)
      | some error ↦ elim (field as_str vs 3) [
        | none ↦ (leaves died, v)
        | some traceback ↦
            on_answer w task_id (record (nack error traceback) { directive = read_directive vs }) v
      ]
    ]
  ]

  unfoldable pub on_progress : List Value → Shared api → Serving api → Next × Shared api
  on_progress vs s v = if not (holds vs 3) then (panicked, s) else elim (field as_u64 vs 1) [
    | none ↦ (going, s)
    | some task_id ↦ elim (field as_slice vs 2) [
      | none ↦ (going, s)
      | some blob ↦ elim (lookup task_id v.child.inflight) [
        | none ↦ (going, s)
        | some job ↦ (going, keep_progress job blob s)
      ]
    ]
  ]

  abbrev pub with_shared : Shared api → Next × Serving api → Next × Shared api × Serving api
  with_shared s (next_turn, v) = (next_turn, s, v)

  -- The `frame = frames.recv()` arm: `none` is a channel that is closed.
  unfoldable pub on_frame :
      MessagePack
      → Cfg
      → Meets api
      → Option Text
      → Shared api
      → Serving api
      → Next × Shared api × Serving api
  on_frame pack cfg w received s v = elim received [
    | none ↦ (leaves died, s, v)
    | some body ↦ elim (decode pack body) [
      | none ↦ (leaves died, s, v)
      | some vs ↦ elim (field as_str vs 0) [
        | none ↦ (leaves died, s, v)
        | some word ↦
            if word == text "Ready"
            then on_ready cfg w s v
            else if word == text "Ack"
            then with_shared s (on_ack w vs v)
            else if word == text "Nack"
            then with_shared s (on_nack w vs v)
            else if word == text "Progress"
            then (let (next_turn, after) = on_progress vs s v in (next_turn, after, v))
            else (leaves died, s, v)
      ]
    ]
  ]

  -- The `spare_rx.recv()` arm.
  unfoldable pub on_spare : (now : ℕ) → Bool → Serving api → Serving api
  on_spare now spawned v =
      if spawned
      then record v { arming = false; spare = true; spare_at = some now }
      else record v { arming = false }

  abbrev pub idles : Cfg → (now : ℕ) → Serving api → Bool
  idles cfg now v = elim v.spare_at [
    | none ↦ false
    | some since ↦ v.spare && ltb cfg.spare_idle (now - since)
  ]

  abbrev pub drop_stale : Cfg → (now : ℕ) → Shared api → Serving api → Shared api × Serving api
  drop_stale cfg now s v =
      if idles cfg now v
      then (
        count (λ c. record c { wasted_spares = u64 (c.wasted_spares + 1) }) s,
        record v { spare = false; spare_at = none },
      )
      else (s, v)

  abbrev pub fill_on_tick :
      Cfg → Meets api → Shared api → Serving api → Next × Shared api × Serving api
  fill_on_tick cfg w s v =
      if ltb 0 v.child.free && not (is_idle v.child)
      then on_filled false (fill cfg.pace w.moments fill_empty s v.child) v
      else (going, s, v)

  -- What a tick decides after it has filled the child.
  abbrev pub retire : Cfg → Meets api → Pressure fl → Serving api → Next × Serving api
  retire cfg w reading v =
      if over_hard_max cfg reading.rss
      then (
        leaves (if is_idle v.child then recycle hard_max_rss_reason else over_hard_limit),
        await_spare w v,
      )
      else elim reading.trigger [
        | none ↦ (going, v)
        | some why ↦ (leaves (recycle why), await_spare w v)
      ]

  -- The `ticker.tick()` arm.
  unfoldable pub on_tick :
      Cfg → Meets api → Shared api → Serving api → Next × Shared api × Serving api
  on_tick cfg w s v =
      let (kept_s, kept) = drop_stale cfg w.now s v in
      let (reading, checked_s, checked) = check cfg w kept_s kept in
      let (filled_next, filled_s, filled) = fill_on_tick cfg w checked_s checked in
      elim filled_next [
        | going ↦ with_shared filled_s (retire cfg w reading filled)
        | parked ↦ (parked, filled_s, filled)
        | panicked ↦ (panicked, filled_s, filled)
        | leaves exit ↦ (leaves exit, filled_s, filled)
      ]
