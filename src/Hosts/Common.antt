-- ===== src/Hosts/Common.antt =====
-- What the routes of the host agents share.
use xoom_agent_control.Prelude.{String, Bool, ◌&&◌, ◌==◌, none, some}
use xoom_agent_control.Enums.{is_queued}
use xoom_agent_control.Rows.{HostCommand}
use xoom_agent_control.Guards.{Caller}
use xoom_agent_control.Audit.{AuditContext}

-- An audit entry with no user.
abbrev pub from_ip : Caller → AuditContext
from_ip caller = record { actor_user_id = none; ip_address = some caller.ip }

abbrev pub is_waiting : String → HostCommand → Bool
is_waiting host_id c = c.host_id == host_id && is_queued c.status
