-- ===== src/Connect/Tests.antt =====
-- A grant of a business owner for a computer of their business.
use rem0te.Connect.Single.Once.{count-released}
use rem0te.Connect.Launcher.Bound.{IsOwn, Opens, issue_token-IsOwn}
use rem0te.Auth.Jwt.{truthy}
use rem0te.Connect.Launcher.Backed.{Backing, check_token-Backing}
use rem0te.Connect.Quick.{Switches}
use rem0te.Connect.Launcher.Validate.{check_token, recheck_authorization}
use rem0te.Connect.Launcher.{
  Launch, LauncherToken, LaunchSession, LauncherPayload, issue_token, launch_target, bound_session,
  may_bind,
}
use rem0te.Connect.Standing.{Standing, check_grant-Standing}
use rem0te.Connect.Single.{Step, Steps, World, count_of}
use rem0te.Rbac.Capability.{effective_capabilities, RoleType}
use rem0te.Prelude.Json.{Json}
use rem0te.Rbac.Access.{
  assigned_users, can, can_reach_endpoint, is_business_owner, resolve_scope, assert_capability,
  assert_endpoint_in_scope,
}
use rem0te.Session.State.{SessionStatus}
use rem0te.Prelude.{
  [], ◌∷◌, none, some, true, false, refl, arith, ◌≡◌, ok, trim, ℕ, ◌≤◌, update_many, String,
}
use rem0te.Schedule.{Intl}
use rem0te.Rbac.Technician.{Business, resolve, get_scope}
use rem0te.Connect.Delivery.{IsReady, redeem-create}
use rem0te.Rbac.Actor.{
  own_business, Identity, UserRow, Actor, actor_for_business, build_actor_context, pick_technician,
}
use rem0te.Connect.{
  authorize_connect, live_actor, Node, Rows, Computer, ComputerStatus, is_archived_status,
  is_open_business, business_of, can_connect,
}
use rem0te.Connect.Grant.{
  Grant, Ledger, Ticket, new_grant, redeem_connection_grant, check_grant, create_connection_grant,
  find_grant, grant_redeemed, claim_grant,
}

abbrev acme : Business
acme = record { id = "acme"; is_active = true; is_archived = false }

abbrev olga : UserRow
olga = record { id = "olga"; is_active = true; is_platform_admin = false }

abbrev pc_node : Node
pc_node = record { rustdesk_id = "123456789"; permanent_password = none }

abbrev pc : Computer
pc = record {
  endpoint = record { id = "pc"; customer_id = some "acme"; access_mode = assigned_users };
  status = ComputerStatus.active;
  node = some pc_node;
}

abbrev rows : Rows
rows = record {
  user = λ u. some olga;
  membership = λ u.
      some
        (record { customer = some acme; capabilities = Json.null; role = RoleType.business_owner });
  assignments = λ u. [];
  computer = λ id. some pc;
  business = λ id. some acme;
  access = λ e u. none;
}

-- Nothing of the platform's clock is asked for.
abbrev intl : Intl
intl = record { is_zone = λ z. true; weekday = λ z t. "Mon"; hour = λ z t. 9; minute = λ z t. 0 }

abbrev owner : Identity
owner = record {
  user = olga;
  own_business_id = some "acme";
  role_type = some RoleType.business_owner;
  capabilities = Json.null;
  business_id = some "acme";
  technician = none;
}

abbrev actor : Actor
actor = build_actor_context owner

abbrev grant : Grant
grant = new_grant 1000 actor none "pc" "g1" "digest"

abbrev ticket : Ticket
ticket = record { grant = grant; rustdesk_id = "123456789"; password = none }

abbrev start : Ledger
start = record { grants = []; audits = [] }

live : live_actor intl rows 2000 "olga" (some "acme") ≡ some actor
unfolding live_actor actor_for_business pick_technician own_business resolve get_scope trim
live = refl

may_connect : (now : ℕ) → authorize_connect intl rows now actor "pc" ≡ ok tt
unfolding authorize_connect build_actor_context can can_reach_endpoint is_business_owner
    effective_capabilities
may_connect now = refl

ready : IsReady intl some rows 2000 "olga" "pc" pc_node none
ready = record {
  computer = pc;
  actor = actor;
  is_active = refl;
  is_there = refl;
  is_live = live;
  authorized = may_connect 2000;
  enrolled = refl;
  opens_password = refl;
}

redeem-create_example :
    (redeem_connection_grant intl some rows 2000 none "digest"
      (create_connection_grant intl rows 1000 actor none "pc" "g1" "digest" start).1).0
    ≡ ok ticket
unfolding build_actor_context
redeem-create_example =
    redeem-create intl some rows rows 1000 2000 actor none none "pc" "g1" "digest" start pc_node
      none (may_connect 1000) (omega arith) ready

checked : check_grant intl some rows 2000 (some grant) ≡ ok ticket
unfolding check_grant live_actor actor_for_business pick_technician own_business resolve get_scope
    trim authorize_connect build_actor_context can can_reach_endpoint is_business_owner
    effective_capabilities
checked = refl

check_grant-Standing_example :
    (some grant ≡ some grant)
    × (grant.used_at ≡ none)
    × (2000 ≤ grant.expires_at)
    × (olga.is_active ≡ true)
    × ((c : Computer) × (rows.computer "pc" ≡ some c)
        × (is_archived_status c.status ≡ false)
        × (is_open_business (business_of rows c) ≡ true)
        × Standing intl rows 2000 "olga" c)
unfolding build_actor_context
check_grant-Standing_example =
    check_grant-Standing intl some rows 2000 (some grant) ticket olga checked refl refl

abbrev made : World
made = record { ledger = record { grants = grant ∷ []; audits = [] }; released = [] }

abbrev used : World
used = record {
  ledger = record {
    grants = record grant { used_at = some 2000 } ∷ [];
    audits = record { action = grant_redeemed; actor_id = "olga"; resource_id = "g1" } ∷ [];
  };
  released = "g1" ∷ [];
}

one_claim : Step made used
unfolding check_grant find_grant claim_grant update_many build_actor_context
one_claim =
    Step.claiming intl some rows 2000 2000 none "digest" (grant ∷ []) ticket checked refl refl

count-released_example : count_of "g1" ("g1" ∷ []) ≤ 1
count-released_example = count-released "g1" made used (Steps.then_step Steps.stay one_claim) refl

abbrev switches : Switches
switches = record { platform = false; business = λ b. none }

abbrev own_session : LaunchSession
own_session = record {
  id = "s1";
  technician_id = some "olga";
  status = SessionStatus.launch_requested;
  customer_id = some "acme";
  endpoint_id = some "pc";
  is_ad_hoc = false;
  ad_hoc_rustdesk_id = none;
}

abbrev launch : Launch
launch = record { endpoint_id = some "pc"; ad_hoc_rustdesk_id = none; session_id = some "s1" }

abbrev link : LauncherToken
link = record {
  id = "l1";
  token_hash = "digest";
  user_id = "olga";
  expires_at = 121000;
  used_at = none;
  revoked_at = none;
  target_endpoint_id = some "pc";
  target_rustdesk_id = some "123456789";
  support_session_id = some "s1";
}

abbrev payload : LauncherPayload
payload = record { is_launcher = true; business_id = some "acme" }

issue_token-IsOwn_example :
    (link.user_id ≡ actor.user_id)
    × (payload.business_id ≡ truthy actor.business_id)
    × (link.target_endpoint_id ≡ some "pc")
    × Opens intl rows switches 1000 actor launch link
    × (link.support_session_id ≡ launch.session_id)
    × ((x : String)
        → truthy link.support_session_id ≡ some x
        → (row : LaunchSession) × (some own_session ≡ some row) × IsOwn actor link row)
unfolding issue_token launch_target bound_session may_bind resolve_scope assert_capability
    assert_endpoint_in_scope can_connect authorize_connect build_actor_context can
    can_reach_endpoint is_business_owner effective_capabilities
issue_token-IsOwn_example =
    issue_token-IsOwn intl rows switches (λ id. some own_session) 1000 actor (some "t1") launch "l1"
      "digest" [] link payload refl

check_token-Backing_example :
    (some link ≡ some link)
    × (link.used_at ≡ none)
    × (link.revoked_at ≡ none)
    × (2000 ≤ link.expires_at)
    × ((p : LauncherPayload) × (some payload ≡ some p) × Backing intl rows switches 2000 link p)
unfolding check_token recheck_authorization live_actor actor_for_business pick_technician
    own_business resolve get_scope trim can_connect authorize_connect build_actor_context can
    can_reach_endpoint is_business_owner effective_capabilities
check_token-Backing_example =
    check_token-Backing intl rows switches 2000 (some payload) (some link) link olga refl refl refl
