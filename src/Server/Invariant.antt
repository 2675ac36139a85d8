-- ===== src/Server/Invariant.antt =====
-- The hosts, tenants and commands in the states that requests can reach.
use xoom_agent_control.Prisma.{Documented}
use xoom_agent_control.Rows.{Db, empty_db}
use xoom_agent_control.Env.{Env}
use xoom_agent_control.Server.{
  Request, creation, change, action, callback, approval, maintenance, command, retry, registration,
  beat, logs, poll, report, sign_in, user, setting, server, server_change, grant, llm_change,
  memory_change, secret, secret_removal, new_template, template_change, template_removal, serve,
  Step, served, Reachable, here, next,
}
use xoom_agent_control.Server.Sound.{IsSound}
use xoom_agent_control.Server.HostRoutes.{
  approve_host-Sound, set_maintenance-Sound, heartbeat-Sound, post_logs-Sound, register-Sound,
}
use xoom_agent_control.Server.CommandRoutes.{post_command-Sound, retry_command-Sound}
use xoom_agent_control.Server.Polls.{next_command-Sound}
use xoom_agent_control.Server.Reports.{post_result-Sound}
use xoom_agent_control.Server.TenantRoutes.{
  patch_tenant-Sound, post_action-Sound, post_callback-Sound,
}
use xoom_agent_control.Server.Creation.{post_tenant-Sound}
use xoom_agent_control.Server.SideRoutes.{
  login-Sound, create_user-Sound, put_setting-Sound, create_server-Sound, patch_server-Sound,
  set_access-Sound, put_llm-Sound, put_memory-Sound, post_secret-Sound, delete_secret-Sound,
  create_template-Sound, patch_template-Sound, delete_template-Sound,
}

-- One request keeps what holds.
pub serve-IsSound :
    (env : Env) (request : Request) (s : Db)
    → Documented env.client
    → IsSound s
    → IsSound (serve env request s)
unfolding serve
serve-IsSound env (creation caller input) s d p =
    (post_tenant-Sound env d caller input).preserves s p
serve-IsSound env (change caller id input) s d p =
    (patch_tenant-Sound env d caller id input).preserves s p
serve-IsSound env (action caller id act version) s d p =
    (post_action-Sound env d caller id act version).preserves s p
serve-IsSound env (callback id body) s d p = (post_callback-Sound env d id body).preserves s p
serve-IsSound env (approval caller id approved) s d p =
    (approve_host-Sound env d caller id approved).preserves s p
serve-IsSound env (maintenance caller id status) s d p =
    (set_maintenance-Sound env d caller id status).preserves s p
serve-IsSound env (command caller body) s d p = (post_command-Sound env d caller body).preserves s p
serve-IsSound env (retry caller id) s d p = (retry_command-Sound env d caller id).preserves s p
serve-IsSound env (registration token caller body) s d p =
    (register-Sound env d token caller body).preserves s p
serve-IsSound env (beat caller host_id body) s d p =
    (heartbeat-Sound env d caller host_id body).preserves s p
serve-IsSound env (logs caller host_id body) s d p =
    (post_logs-Sound env d caller host_id body).preserves s p
serve-IsSound env (poll caller host_id) s d p =
    (next_command-Sound env d caller host_id).preserves s p
serve-IsSound env (report caller host_id command_id body) s d p =
    (post_result-Sound env d caller host_id command_id body).preserves s p
serve-IsSound env (sign_in body) s d p = (login-Sound env d body).preserves s p
serve-IsSound env (user caller body) s d p = (create_user-Sound env d caller body).preserves s p
serve-IsSound env (setting caller key body) s d p =
    (put_setting-Sound env d caller key body).preserves s p
serve-IsSound env (server caller body) s d p = (create_server-Sound env d caller body).preserves s p
serve-IsSound env (server_change caller id body) s d p =
    (patch_server-Sound env d caller id body).preserves s p
serve-IsSound env (grant caller tenant_id body) s d p =
    (set_access-Sound env d caller tenant_id body).preserves s p
serve-IsSound env (llm_change caller tenant_id body) s d p =
    (put_llm-Sound env d caller tenant_id body).preserves s p
serve-IsSound env (memory_change caller tenant_id body) s d p =
    (put_memory-Sound env d caller tenant_id body).preserves s p
serve-IsSound env (secret caller body) s d p = (post_secret-Sound env d caller body).preserves s p
serve-IsSound env (secret_removal caller id) s d p =
    (delete_secret-Sound env d caller id).preserves s p
serve-IsSound env (new_template caller body) s d p =
    (create_template-Sound env d caller body).preserves s p
serve-IsSound env (template_change caller id body) s d p =
    (patch_template-Sound env d caller id body).preserves s p
serve-IsSound env (template_removal caller id) s d p =
    (delete_template-Sound env d caller id).preserves s p

Step-IsSound : {s t : Db} → Step s t → IsSound s → IsSound t
Step-IsSound (served env d request s) p = serve-IsSound env request s d p

empty_db-IsSound : IsSound empty_db
empty_db-IsSound = (
  record { ids = tt; names = tt },
  record { ids = tt; slugs = tt; placed = tt },
  record { ids = tt; settled = tt },
)

-- In every state that requests to the routes that write reach from the empty database, each on a
-- documented client: no two hosts share an id or a name, no two tenants
-- an id or a slug, and no two commands an id; a pending tenant has no host, and a provisioning one
-- has one; a command has a time of completion if it succeeded or failed, and none otherwise.
pub Reachable-IsSound : {s : Db} → Reachable empty_db s → IsSound s
Reachable-IsSound here = empty_db-IsSound
Reachable-IsSound (next r step) = Step-IsSound step (Reachable-IsSound r)
