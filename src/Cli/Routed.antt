-- ===== src/Cli/Routed.antt =====
-- src/cli/mod.rs: the route against the flags.
use brazen.Base.{◌≤◌, true, false, List, some, Bytes, ◌≡◌, ◌↔◌, arith}
use brazen.Base.Result.{ok}
use brazen.Cli.{
  Flags, Route, login_route, list_models_route, list_providers_route, count_tokens_route,
  serve_route, run_route,
}
use brazen.Cli.Checked.{parse_args-Passed}
use brazen.Cli.Parse.{is_probe, controls, route_of, parse_args, route}
use brazen.Config.Row.{Floats}

-- The flags of the control planes agree with the route.
abbrev pub Agrees : {V F : Type 0} → Flags V F → Route → Type 0
Agrees f login_route = f.login ≡ true
Agrees f list_models_route = f.list_models ≡ true
Agrees f list_providers_route = f.list_providers ≡ true
Agrees f count_tokens_route = f.count_tokens ≡ true
Agrees f serve_route = f.serve ≡ true
Agrees f run_route =
    (f.login ≡ false)
    × (f.list_models ≡ false)
    × (f.list_providers ≡ false)
    × (f.count_tokens ≡ false)
    × (f.serve ≡ false)

module _ {V F : Type 0} where
  route_of-Agrees :
      (f : Flags V F) → controls f ≤ 1 → (r : Route) → (route_of (some (ok f)) ≡ r) ↔ Agrees f r
  unfolding route_of controls
  route_of-Agrees f h login_route = ground (arith, h)
  route_of-Agrees f h list_models_route = ground (arith, h)
  route_of-Agrees f h list_providers_route = ground (arith, h)
  route_of-Agrees f h count_tokens_route = ground (arith, h)
  route_of-Agrees f h serve_route = ground (arith, h)
  route_of-Agrees f h run_route = ground (arith, h)

module _ (V : Type 0) (floats : Floats V) where
  open floats use {Float}

  -- Where a command line parses and holds no probe, the route is that of a control operation
  -- exactly when its flag is set, whatever the order in which the routes are tried, and it is a run
  -- exactly when none of the five is set.
  pub route-Agrees :
      (argv : List Bytes) (f : Flags V Float)
      → parse_args V floats argv ≡ some (ok f)
      → is_probe f ≡ false
      → (r : Route) → (route V floats argv ≡ r) ↔ Agrees f r
  unfolding route
  route-Agrees argv f h no_probe r =
      rw h (route_of-Agrees f ((parse_args-Passed V floats argv (ok f) h).0 no_probe) r)
