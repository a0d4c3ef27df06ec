-- ===== src/Supervisor/Serve/Retiring.antt =====
-- When a slot gives a child up.
use tarsk.Base.{
  Bool-cases, Option, arith, false, inl, inr, ltb, none, not, refl, some, true, ◌&&◌, ◌≡◌, ◌⊎◌,
}
use tarsk.Ceiling.{Pressure}
use tarsk.Supervisor.{BrokerApi, Shared}
use tarsk.Base.Float.{Float}
use tarsk.Supervisor.Checking.{
  Cfg, Meets, Next, Serving, check, died, going, leaves, over_hard_limit, parked,
}
use tarsk.Supervisor.Dispatch.{
  Child, Filled, fill, fill_dead, fill_done, fill_empty, fill_sent, is_idle,
}
use tarsk.Supervisor.Serve.{drop_stale, fill_on_tick, on_filled, on_tick, over_hard_max, retire}

abbrev Mild : Next → Type 0
Mild turn = (turn ≡ leaves died) ⊎ ((turn ≡ parked) ⊎ (turn ≡ going))

module _ {fl : Float} {api : BrokerApi fl} where
  on_filled_exits :
      (r : Option Filled × Shared api × Child api) (v : Serving api)
      → Mild ((on_filled false r v).0)
  on_filled_exits (none, s, child) v = inr (inl refl)
  on_filled_exits (some fill_dead, s, child) v = inl refl
  on_filled_exits (some fill_done, s, child) v = inr (inr refl)
  on_filled_exits (some fill_sent, s, child) v = inr (inr refl)
  on_filled_exits (some fill_empty, s, child) v = inr (inr refl)

  fill_on_tick_exits :
      (cfg : Cfg) (w : Meets api) (s : Shared api) (v : Serving api)
      → Mild ((fill_on_tick cfg w s v).0)
  fill_on_tick_exits cfg w s v = elim (Bool-cases (ltb 0 v.child.free && not (is_idle v.child))) [
    | inl fills ↦ rw fills (on_filled_exits (fill cfg.pace w.moments fill_empty s v.child) v)
    | inr waits ↦ rw waits (inr (inr refl))
  ]

  retire_exits :
      (cfg : Cfg) (w : Meets api) (reading : Pressure fl) (v : Serving api)
      → let (turn, kept) = retire cfg w reading v in
        (turn ≡ going → (over_hard_max cfg reading.rss ≡ false) × (reading.trigger ≡ none))
        × (turn ≡ leaves over_hard_limit
            → (over_hard_max cfg reading.rss ≡ true) × (is_idle kept.child ≡ false))
  retire_exits cfg w reading v = ground arith

  -- After a tick that goes on, the memory last read is under the hard limit, where there is one,
  -- and no trigger has fired. A child over the hard limit is killed only while it holds jobs.
  pub on_tick_retires :
      (cfg : Cfg) (w : Meets api) (s : Shared api) (v : Serving api)
      → let (stale_s, stale) = drop_stale cfg w.now s v in
        let reading = (check cfg w stale_s stale).0 in
        let (turn, after, kept) = on_tick cfg w s v in
        (turn ≡ going → (over_hard_max cfg reading.rss ≡ false) × (reading.trigger ≡ none))
        × (turn ≡ leaves over_hard_limit
            → (over_hard_max cfg reading.rss ≡ true) × (is_idle kept.child ≡ false))
  unfolding on_tick
  on_tick_retires cfg w s v =
      let (stale_s, stale) = drop_stale cfg w.now s v in
      let (reading, checked_s, checked) = check cfg w stale_s stale in
      let (filled_next, filled_s, filled) = fill_on_tick cfg w checked_s checked in
      ground (arith, fill_on_tick_exits cfg w checked_s checked, retire_exits cfg w reading filled)
