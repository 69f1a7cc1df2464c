-- ===== src/Support/Tests.antt =====
-- A request that is claimed, given back and claimed again, and a run of retention.
use rem0te.Rbac.Actor.{Actor}
use rem0te.Rbac.Access.{assert_capability, can, resolve_scope, requested_id}
use rem0te.Support.{Status, Origin, SupportRequest, Desk, find_request, add_event, count_where}
use rem0te.Support.Queue.{claim, release, load, queue_scope, can_manage}
use rem0te.Support.Lifecycle.{Guarded, Step, Steps, IsSound, Agrees}
use rem0te.Support.Lifecycle.Versions.{Steps-IsSound, Guarded-once}
use rem0te.Support.Retention.{retention, old_ids}
use rem0te.Support.Retention.Effect.{retention_done, WithinPeriods}
use rem0te.Rbac.Capability.{Capability, RoleType, Capability-discrete}
use rem0te.Prelude.{
  update_many, refl, true, false, some, none, [], ◌∷◌, String, All, arith, all, includes,
}

abbrev asked : SupportRequest
asked = record {
  id = "r1";
  customer_id = "acme";
  origin = Origin.from_public;
  submitted_by_id = none;
  contact_name = some "Ann";
  contact_email = none;
  contact_phone = none;
  description = some "no sound";
  endpoint_id = none;
  reported_rustdesk_id = none;
  unmanaged = true;
  status = Status.waiting;
  version = 0;
  claimed_by_id = none;
  claimed_at = none;
  closed_at = none;
  outcome = none;
  status_token_hash = "h1";
  status_expires_at = 604800000;
  submit_ip_hash = none;
  anonymized_at = none;
  created_at = 1000;
}

abbrev helper : String → Actor
helper user = record {
  user_id = user;
  business_id = some "acme";
  is_platform_admin = false;
  role_type = some RoleType.business_user;
  capabilities = Capability.support_requests ∷ [];
  technician = none;
}

abbrev desk : Desk
desk = record { requests = asked ∷ []; events = [] }

abbrev claimed_row : SupportRequest
claimed_row = record asked {
  status = Status.claimed;
  version = 1;
  claimed_by_id = some "tess";
  claimed_at = some 2000;
}

abbrev claimed_desk : Desk
claimed_desk = record {
  requests = claimed_row ∷ [];
  events =
      (record { request_id = "r1"; actor_id = some "tess"; event = "claimed"; detail = some [] })
      ∷ [];
}

abbrev released_desk : Desk
released_desk = record {
  requests = record asked { version = 2 } ∷ [];
  events =
      (record { request_id = "r1"; actor_id = some "tess"; event = "claimed"; detail = some [] })
      ∷ (record { request_id = "r1"; actor_id = some "tess"; event = "released"; detail = some [] })
      ∷ [];
}

claims : Guarded "r1" 0 desk claimed_desk
unfolding claim load queue_scope assert_capability can all resolve_scope requested_id find_request
    update_many add_event includes Capability-discrete
claims = Guarded.claiming 2000 (helper "tess") (asked ∷ []) refl

releases : Guarded "r1" 1 claimed_desk released_desk
unfolding release load queue_scope assert_capability can all resolve_scope requested_id find_request
    update_many add_event includes Capability-discrete can_manage
releases = Guarded.releasing (helper "tess") (claimed_row ∷ []) refl

abbrev steps : Steps desk released_desk
steps =
    Steps.then_step (Steps.then_step Steps.stay (Step.guarded "r1" 0 claims))
      (Step.guarded "r1" 1 releases)

Steps-IsSound_example : All IsSound released_desk.requests
unfolding Agrees
Steps-IsSound_example = Steps-IsSound desk released_desk steps ((refl, refl), tt)

abbrev stolen_desk : Desk
stolen_desk = record released_desk {
  requests = record claimed_row { claimed_by_id = some "otto" } ∷ [];
}

Guarded-once_example : ¬ Guarded "r1" 0 released_desk stolen_desk
unfolding count_where
Guarded-once_example =
    Guarded-once "r1" 0 0 desk claimed_desk released_desk stolen_desk refl claims
      (Steps.then_step Steps.stay (Step.guarded "r1" 1 releases)) (omega arith)

abbrev closed_desk : Desk
closed_desk = record {
  requests = record asked { status = Status.canceled; closed_at = some 2000 } ∷ [];
  events = [];
}

retention_done_example :
    All (WithinPeriods 3000000000) (retention 3000000000 (λ id. "h2") closed_desk).0.requests
unfolding retention old_ids update_many
retention_done_example =
    retention_done 3000000000 (λ id. "h2") closed_desk ((λ e. absurd (ground (arith, e))), tt)
      (ground arith)
