-- ===== src/Session/Machine/Replay.antt =====
-- A repeated delivery of an event.
use rem0te.Prelude.{◌≡◌, arith}
use rem0te.Session.State.{Session, EventInput}
use rem0te.Session.Machine.{after}

-- An event that is delivered a second time changes nothing more.
pub after-after : (s : Session) (ev : EventInput) → after (after s ev) ev ≡ after s ev
unfolding after
after-after s ev = ground arith
