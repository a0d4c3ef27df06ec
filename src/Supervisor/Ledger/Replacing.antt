-- ===== src/Supervisor/Ledger/Replacing.antt =====
-- How a slot goes on after its child (`slot` and `spawn_child`, lib.rs), in the counts of the ledger.
use tarsk.Base.{
  Bool, Bool-cases, List, Option, Option-cases, Text, [], arith, inl, inr, leb, nat_eq, none, refl,
  some, ℕ, ◌+◌, ◌∙◌, ◌∷◌, ◌≡◌,
}
use tarsk.Broker.{Receipt}
use tarsk.Supervisor.{BrokerApi, Outcome, Shared, abandon}
use tarsk.Wire.{MessagePack, as_str, decode, field}
use tarsk.Base.Dict.{Distinct, lookup}
use tarsk.Base.Float.{Float}
use tarsk.Supervisor.Checking.{Cfg, Exit, Serving, died, finished, over_hard_limit, recycle}
use tarsk.Supervisor.Draining.{
  ack_answer, ask_to_drain, drain, drain_loop, drain_turn, nack_answer, reap, settle_answer,
  settle_some, stops,
}
use tarsk.Supervisor.Ledger.{held, settled, settled-fail_killed}
use tarsk.Supervisor.Slot.{
  Launch, Leaving, connected, count_crash, count_hard_kill, count_recycle, drain_spare, exited,
  fail_killed, not_started, on_exit, refused, registered_child, replaced_unless_done, spawn_child,
  take_jobs, waiting_child,
}
use tarsk.Supervisor.Ledger.Leaving.{settled-drain, settled-reap}
use tarsk.Supervisor.Settle.Exactly.{Oracle, logging}

-- A replacement that has not served yet holds no job.
abbrev pub IsUnused : {fl : Float} {api : BrokerApi fl} → Option (Serving api) → Type 0
IsUnused none = Unit
IsUnused (some v) = v.child.inflight ≡ []

abbrev pub held_beside :
    {fl : Float} {api : BrokerApi fl} → (Receipt api.Acker → Bool) → Option (Serving api) → ℕ
held_beside p none = 0
held_beside p (some v) = held p v.child.inflight

module _ (fl : Float) {Acker : Type 0} (o : Oracle Acker) (pack : MessagePack)
    (p : Receipt Acker → Bool) where
  -- Nothing is settled, and nothing is in flight.
  abbrev IsStill :
      Shared (logging fl Acker o)
      → Shared (logging fl Acker o)
      → Serving (logging fl Acker o)
      → Type 0
  IsStill s after kept = (settled p after.store ≡ settled p s.store) × (kept.child.inflight ≡ [])

  settle_some-IsStill :
      (now : ℕ) (answer : Option (ℕ × Outcome)) (s : Shared (logging fl Acker o))
      (v : Serving (logging fl Acker o))
      → v.child.inflight ≡ []
      → let (turn, after, kept) = settle_some {api = logging fl Acker o} pack now answer s v in
        IsStill s after kept
  unfolding settle_answer lookup
  settle_some-IsStill now none s v h = (refl, h)
  settle_some-IsStill now (some (task_id, outcome)) s v h = rw h (refl, refl)

  drain_turn-IsStill :
      (now : ℕ) (incoming : Option Text) (s : Shared (logging fl Acker o))
      (v : Serving (logging fl Acker o))
      → v.child.inflight ≡ []
      → let (turn, after, kept) = drain_turn {api = logging fl Acker o} pack now incoming s v in
        IsStill s after kept
  unfolding drain_turn
  drain_turn-IsStill now none s v h = (refl, h)
  drain_turn-IsStill now (some body) s v h = elim (Option-cases (decode pack body)) [
    | inl garbled ↦ ground (arith, garbled, h)
    | inr (vs, e) ↦ elim (Option-cases (field as_str vs 0)) [
      | inl wordless ↦ ground (arith, e, wordless, h)
      | inr (word, f) ↦ ground (
        arith,
        e,
        f,
        h,
        settle_some-IsStill now (ack_answer vs) s v h,
        settle_some-IsStill now (nack_answer vs) s v h,
      )
    ]
  ]

  drain_loop-IsStill :
      (frames : List (ℕ × Option Text)) (s : Shared (logging fl Acker o))
      (v : Serving (logging fl Acker o))
      → v.child.inflight ≡ []
      → let (turn, after, kept) = drain_loop {api = logging fl Acker o} pack frames s v in
        IsStill s after kept
  unfolding drain_loop
  drain_loop-IsStill [] s v h = (refl, h)
  drain_loop-IsStill ((now, incoming) ∷ frames) s v h =
      let (turn, after, kept) = drain_turn {api = logging fl Acker o} pack now incoming s v in
      let here = drain_turn-IsStill now incoming s v h in
      ground (arith, here, h, drain_loop-IsStill frames after kept here.1)

  settled-drain_spare :
      (w : Leaving (logging fl Acker o)) (spare : Option (Serving (logging fl Acker o)))
      (s : Shared (logging fl Acker o))
      → IsUnused spare
      → settled p (drain_spare {api = logging fl Acker o} pack w spare s).store ≡ settled p s.store
  unfolding drain held
  settled-drain_spare w none s h = refl
  settled-drain_spare w (some unused) s h =
      let told = ask_to_drain {api = logging fl Acker o} unused in
      let (turn, after, kept) = drain_loop {api = logging fl Acker o} pack w.spare_frames s told in
      ground (
        arith,
        h,
        drain_loop-IsStill w.spare_frames s told h,
        settled-reap fl o pack p w.spare_ending kept after,
      )

  settled-registered_child :
      (cfg : Cfg) (pid : ℕ) (rss : Option ℕ) (launched_ms started : ℕ)
      (s : Shared (logging fl Acker o))
      → settled p
          (registered_child {api = logging fl Acker o} cfg pid rss launched_ms started s).1.store
        ≡ settled p s.store
  unfolding abandon
  settled-registered_child cfg pid none launched_ms started s = ground arith
  settled-registered_child cfg pid (some bytes) launched_ms started s = ground arith

  settled-spawn_child :
      (cfg : Cfg) (meets : Shared (logging fl Acker o) → Shared (logging fl Acker o))
      (launch : Launch) (s : Shared (logging fl Acker o))
      → ((t : Shared (logging fl Acker o)) → settled p (meets t).store ≡ settled p t.store)
      → settled p (spawn_child {api = logging fl Acker o} cfg meets launch s).1.store
        ≡ settled p s.store
  unfolding spawn_child abandon
  settled-spawn_child cfg meets not_started s rely =
      ground (arith, rely (waiting_child {api = logging fl Acker o} s))
  settled-spawn_child cfg meets refused s rely =
      ground (arith, rely (waiting_child {api = logging fl Acker o} s))
  settled-spawn_child cfg meets (connected pid rss launched_ms started) s rely =
      let waits = waiting_child {api = logging fl Acker o} s in
      elim (Bool-cases (leb cfg.spawn_cap s.counters.spawns)) [
        | inl capped ↦ ground (arith, capped)
        | inr below ↦
            rw below
              (settled-registered_child cfg pid rss launched_ms started (meets waits) ∙ rely waits)
      ]
  settled-spawn_child cfg meets (exited code) s rely =
      ground (arith, rely (waiting_child {api = logging fl Acker o} s))

  settled-replaced :
      (cfg : Cfg) (w : Leaving (logging fl Acker o)) (spare : Option (Serving (logging fl Acker o)))
      (s : Shared (logging fl Acker o))
      → IsUnused spare
      → ((t : Shared (logging fl Acker o)) → settled p (w.meets t).store ≡ settled p t.store)
      → let turned = replaced_unless_done {api = logging fl Acker o} pack cfg w spare s in
        (settled p turned.shared.store ≡ settled p s.store) × (turned.draining ≡ none)
  settled-replaced cfg w none s unused rely =
      ground (arith, settled-spawn_child cfg w.meets w.launch s rely)
  settled-replaced cfg w (some ready) s unused rely =
      ground (arith, settled-drain_spare w (some ready) s unused)

  -- However a child leaves its slot, each job that it held is settled once, or is still held by the
  -- child, which is then left to be drained. The replacement is unused, the other tasks settle none
  -- of the jobs that are counted, and the child, where it is drained at once, sends no Ack and no
  -- Nack that is too short.
  pub on_exit_settles :
      (cfg : Cfg) (w : Leaving (logging fl Acker o)) (exit : Exit)
      (spare : Option (Serving (logging fl Acker o))) (v : Serving (logging fl Acker o))
      (s : Shared (logging fl Acker o))
      → Distinct v.child.inflight
      → IsUnused spare
      → ((t : Shared (logging fl Acker o)) → settled p (w.meets t).store ≡ settled p t.store)
      → ((t : Shared (logging fl Acker o))
          → (drain {api = logging fl Acker o} pack w.ending w.frames v t).0 ≡ stops)
      → let turned = on_exit {api = logging fl Acker o} pack cfg w exit spare v s in
        settled p turned.shared.store + held_beside {api = logging fl Acker o} p turned.draining
        ≡ settled p s.store + held p v.child.inflight
  unfolding on_exit held
  on_exit_settles cfg w finished spare v s d unused rely stays = ground (
    arith,
    settled-reap fl o pack p w.ending v s,
    settled-drain_spare w spare (reap {api = logging fl Acker o} pack w.ending v s) unused,
  )
  on_exit_settles cfg w over_hard_limit spare v s d unused rely stays =
      let noted = count_hard_kill {api = logging fl Acker o} s in
      let emptied = take_jobs {api = logging fl Acker o} v in
      let reaped = reap {api = logging fl Acker o} pack w.ending emptied noted in
      let failed = fail_killed {api = logging fl Acker o} pack cfg v.child.inflight reaped in
      let turned = settled-replaced cfg w spare failed unused rely in
      rw (turned.0, turned.1)
        (ground (
          arith,
          settled-reap fl o pack p w.ending emptied noted,
          settled-fail_killed fl o pack p cfg v.child.inflight reaped,
        ))
  on_exit_settles cfg w died spare v s d unused rely stays =
      let noted = count_crash {api = logging fl Acker o} s in
      let reaped = reap {api = logging fl Acker o} pack w.ending v noted in
      let turned = settled-replaced cfg w spare reaped unused rely in
      rw (turned.0, turned.1) (ground (arith, settled-reap fl o pack p w.ending v noted))
  on_exit_settles cfg w (recycle why) (some ready) v s d unused rely stays = omega arith
  on_exit_settles cfg w (recycle why) none v s d unused rely stays =
      let noted = count_recycle {api = logging fl Acker o} why s in
      let launched = settled-spawn_child cfg w.meets w.launch noted rely in
      let (spawned, after) = spawn_child {api = logging fl Acker o} cfg w.meets w.launch noted in
      elim (Option-cases (spawn_child {api = logging fl Acker o} cfg w.meets w.launch noted).0) [
        | inl e ↦ ground (
          arith,
          e,
          launched,
          settled-drain fl o pack p w.ending w.frames v after d (stays after),
        )
        | inr (ready, e) ↦ ground (arith, e, launched)
      ]
