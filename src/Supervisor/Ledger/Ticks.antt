-- ===== src/Supervisor/Ledger/Ticks.antt =====
-- The balance over the ticks of a child's timer (`serve_inner`, lib.rs).
use tarsk.Base.{
  All, Bool, Bool-cases, Option-cases, arith, false, inl, inr, ltb, nat_eq, not, ℕ, ◌&&◌, ◌+◌, ◌<◌,
  ◌^◌,
}
use tarsk.Broker.{Receipt}
use tarsk.Ceiling.{Pressure}
use tarsk.Supervisor.{Shared}
use tarsk.Base.Dict.{Distinct}
use tarsk.Base.Float.{Float}
use tarsk.Supervisor.Checking.{Cfg, Meets, Serving, check}
use tarsk.Supervisor.Dispatch.{is_idle}
use tarsk.Supervisor.Serve.{drop_stale, fill_on_tick, on_tick, retire}
use tarsk.Supervisor.Ledger.Events.{IsSame, IsSame-after, IsSame-before, Next-cases, check-IsSame}
use tarsk.Supervisor.Ledger.Filling.{IsBalanced, IsCalm, IsFresh, IsRemote, numbers}
use tarsk.Supervisor.Ledger.Frames.{filled-IsBalanced}
use tarsk.Supervisor.Ledger.Turns.{IsBalanced-refl}
use tarsk.Supervisor.Settle.Exactly.{Oracle, logging}

module _ (fl : Float) {Acker : Type 0} (o : Oracle Acker) (p : Receipt Acker → Bool) (k : ℕ) where
  drop_stale-IsSame :
      (cfg : Cfg) (now : ℕ) (s : Shared (logging fl Acker o)) (v : Serving (logging fl Acker o))
      → let (after, kept) = drop_stale {api = logging fl Acker o} cfg now s v in
        IsSame fl o p k s v.child after kept.child
  drop_stale-IsSame cfg now s v = ground arith

  retire-IsSame :
      (cfg : Cfg) (w : Meets (logging fl Acker o)) (reading : Pressure fl)
      (s : Shared (logging fl Acker o)) (v : Serving (logging fl Acker o))
      → let (turn, kept) = retire {api = logging fl Acker o} cfg w reading v in
        IsSame fl o p k s v.child s kept.child
  retire-IsSame cfg w reading s v = elim (Option-cases reading.trigger) [
    | inl none_fired ↦ ground (arith, none_fired)
    | inr (why, e) ↦ ground (arith, e)
  ]

  fill_on_tick-IsBalanced :
      (cfg : Cfg) (w : Meets (logging fl Acker o)) (s : Shared (logging fl Acker o))
      (v : Serving (logging fl Acker o))
      → IsRemote o
      → All (IsCalm fl o p k) w.moments
      → IsFresh s.next_task_id v.child.inflight
      → Distinct v.child.inflight
      → s.next_task_id + numbers fl o p k w.moments < 2 ^ 64
      → let (turn, after, kept) = fill_on_tick {api = logging fl Acker o} cfg w s v in
        IsBalanced fl o p k (numbers fl o p k w.moments) s v.child after kept.child
  fill_on_tick-IsBalanced cfg w s v remote calm fresh d room =
      elim (Bool-cases (ltb 0 v.child.free && not (is_idle {api = logging fl Acker o} v.child))) [
        | inl fills ↦ rw fills (filled-IsBalanced fl o p k cfg w false s v remote calm fresh d room)
        | inr rests ↦
            rw rests (IsBalanced-refl fl o p k (numbers fl o p k w.moments) s v.child fresh d)
      ]

  pub on_tick-IsBalanced :
      (cfg : Cfg) (w : Meets (logging fl Acker o)) (s : Shared (logging fl Acker o))
      (v : Serving (logging fl Acker o))
      → IsRemote o
      → All (IsCalm fl o p k) w.moments
      → IsFresh s.next_task_id v.child.inflight
      → Distinct v.child.inflight
      → s.next_task_id + numbers fl o p k w.moments < 2 ^ 64
      → let (turn, after, kept) = on_tick {api = logging fl Acker o} cfg w s v in
        IsBalanced fl o p k (numbers fl o p k w.moments) s v.child after kept.child
  unfolding on_tick
  on_tick-IsBalanced cfg w s v remote calm fresh d room =
      let n = numbers fl o p k w.moments in
      let (stale_s, stale) = drop_stale {api = logging fl Acker o} cfg w.now s v in
      let (reading, checked_s, checked) = check {api = logging fl Acker o} cfg w stale_s stale in
      let (turn, after, kept) = fill_on_tick {api = logging fl Acker o} cfg w checked_s checked in
      let first = drop_stale-IsSame cfg w.now s v in
      let second = check-IsSame fl o p k cfg w stale_s stale in
      let filling = IsSame-before fl o p k n s stale_s after v.child stale.child kept.child first (
        IsSame-before fl o p k n stale_s checked_s after stale.child checked.child kept.child second
          (fill_on_tick-IsBalanced cfg w checked_s checked remote calm
            (rw (second.1, second.2, first.1, first.2) fresh) (rw (second.2, first.2) d)
            (rw (second.1, first.1) room))) in
      elim (Next-cases (fill_on_tick {api = logging fl Acker o} cfg w checked_s checked).0) [
        | inl goes ↦
            rw (goes, on_tick)
              (IsSame-after fl o p k n s after after v.child kept.child
                (retire {api = logging fl Acker o} cfg w reading kept).1.child filling
                (retire-IsSame cfg w reading after kept))
        | inr (inl parks) ↦ rw (parks, on_tick) filling
        | inr (inr (inl panics)) ↦ rw (panics, on_tick) filling
        | inr (inr (inr (exit, e))) ↦ rw (e, on_tick) filling
      ]
