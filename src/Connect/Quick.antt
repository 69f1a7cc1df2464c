-- ===== src/Connect/Quick.antt =====
-- The three switches of Quick Connect: `status` and `assertUsable` of
-- apps/api/src/quick-connect/quick-connect.service.ts.
use rem0te.Rbac.Capability.{quick_connect}
use rem0te.Auth.Jwt.{truthy}
use rem0te.Rbac.Actor.{Actor}
use rem0te.Rbac.Access.{can}
use rem0te.Prelude.{
  none, some, true, false, ◌>>◌, not, ◌&&◌, Option, Bool, String, Result, throw_if, ok,
}

-- `quickConnectEnabled` of the platform, and of a business with its `isActive`.
pub record Switches : Type 0 where
  pub platform : Bool
  pub business : String → Option (Bool × Bool)

pub data QuickDenial : Type 0 where
  platform_off business_off no_capability : QuickDenial

abbrev pub both_on : Option (Bool × Bool) → Bool
both_on none = false
both_on (some (enabled, active)) = enabled && active

abbrev pub business_enabled : Switches → Actor → Bool
business_enabled s actor = elim (truthy actor.business_id) [
  | none ↦ true
  | some b ↦ both_on (s.business b)
]

unfoldable pub assert_usable : Switches → Actor → Result QuickDenial (Unit {0})
unfolding can
assert_usable s actor = do
  throw_if (not s.platform) platform_off
  throw_if (not (business_enabled s actor)) business_off
  throw_if (not (can actor quick_connect)) no_capability
  ok tt
