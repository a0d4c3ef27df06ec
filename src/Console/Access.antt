-- ===== src/Console/Access.antt =====
-- Who may act through the console.
use tarsk.Base.{
  Option, Text, [], arith, false, is_empty, refl, some, text, text_eq, true, ◌∷◌, ◌≡◌, ◌≢◌, ◌⊎◌,
}
use tarsk.Console.{
  Action, Guard, Request, act, allows, cancel, guard, handle, host_of, is_local, metrics_page,
  on_action, purge, replay, same_origin, trim_end, trim_start, unauthorized,
}
use tarsk.Console.Compare.{constant_time_eq_lem}

is_empty_nil : (xs : Text) → is_empty xs ≡ true → xs ≡ []
is_empty_nil [] h = refl
is_empty_nil (x ∷ xs) h = cc

-- The path of the form that a browser posts for an action.
abbrev pub path_of : Action → Text
path_of cancel = text "/cancel"
path_of replay = text "/replay"
path_of purge = text "/purge"

on_action_path :
    (path body : Text) (action : Action) (form : Text)
    → on_action path body ≡ act action form
    → (path ≡ path_of action) × (form ≡ body)
on_action_path path body action form h = ground (
  arith,
  h,
  text_eq.beq_iff path (text "/cancel"),
  text_eq.beq_iff path (text "/replay"),
  text_eq.beq_iff path (text "/purge"),
)

pub handle-act :
    (guarded : Guard) (r : Request) (action : Action) (form : Text)
    → handle guarded r ≡ act action form
    → (r.method ≡ text "POST")
      × (same_origin r ≡ true)
      × (guarded.actions ≡ true)
      × ((guarded.expect ≡ []) ⊎ (trim_end (trim_start r.authorization) ≡ guarded.expect))
      × (r.path ≡ path_of action)
      × (form ≡ r.body)
unfolding handle allows
handle-act guarded r action form h = ground (
  arith,
  h,
  constant_time_eq_lem (trim_end (trim_start r.authorization)) guarded.expect,
  is_empty_nil guarded.expect,
  on_action_path r.path r.body action form,
)

pub guard-handle :
    (addr : Text) (token admin_actions : Option Text) (guarded : Guard) (r : Request)
    → is_local (host_of addr) ≡ false
    → guard addr token admin_actions ≡ some guarded
    → (guarded.expect ≢ [])
      × ((trim_end (trim_start r.authorization) ≡ guarded.expect → ⊥)
          → (handle guarded r ≡ metrics_page) ⊎ (handle guarded r ≡ unauthorized))
unfolding guard handle allows
guard-handle addr token admin_actions guarded r remote served = ground (
  arith,
  remote,
  served,
  constant_time_eq_lem (trim_end (trim_start r.authorization)) guarded.expect,
  is_empty_nil guarded.expect,
)
