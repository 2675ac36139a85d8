-- ===== src/Lib.antt =====
-- XoomAgent Control Platform: a control plane that places tenants on hosts, and the agent that runs
-- on each host.
--
-- Parts, and the files that model them:
--   * the database client and its tables (packages/db): Prisma, Rows, Tables, Query. The generated
--     client is a parameter `Client`; `Documented` is what the code relies on, Prisma/Order has a
--     client that behaves so. A table is the list of its rows in the order of their creation, and
--     `Table` has the constraints of schema.prisma that an insert meets. Query/Laws and Query/Frame
--     say what a query changes and what it leaves;
--   * request bodies and enumerations (packages/shared-types): Requests, Enums, Json;
--   * sessions, keys and roles (packages/auth/src/index.ts): Auth;
--   * the guards requireUser and requireHost (apps/api/src/plugins/context.ts): Guards;
--   * handlers that may throw, and the error handler of apps/api/src/app.ts: Action. No handler runs
--     in a transaction, so what was written before an exception stays; only the nested create of a
--     tenant and its limits is one write;
--   * the audit trail (apps/api/src/lib/audit.ts): Audit;
--   * secrets at rest (apps/api/src/lib/secrets.ts): Secrets, and their routes
--     (apps/api/src/modules/logs/routes.ts): SecretRoutes;
--   * the gateway for language models and memory (apps/api/src/lib/providers): Providers;
--   * the scheduler (apps/api/src/lib/scheduler.ts): Scheduler;
--   * TenantService.createTenant and runAction (apps/api/src/modules/tenants/service.ts):
--     Tenants/Create and Tenants/Lifecycle; the tenant routes: Tenants/Routes, and the list and the
--     detail view: Tenants/Views;
--   * the routes of the host agents (apps/api/src/modules/hosts/agent.routes.ts):
--     Hosts/Registration, Hosts/Queue, and reconcileTenant in Hosts/Reconcile; the routes of the
--     operators (admin.routes.ts beside it): Hosts/Admin and Hosts/Views;
--   * sign-in and users (apps/api/src/modules/auth/routes.ts): Accounts; the platform settings
--     (modules/settings): Settings; the MCP servers (modules/mcp): McpRoutes; the settings of a tenant
--     for language models and memory (modules/llm and modules/memory): ProviderRoutes; the agent
--     templates (modules/templates): Templates; the lists of events, audit entries and usage
--     (modules/logs): Logs; the dashboard and the backups (modules/dashboard and modules/backups):
--     Dashboard;
--   * the command routes (apps/api/src/modules/commands/routes.ts): Commands;
--   * jsonSafe (apps/api/src/lib/serialize.ts): Serialize; the settings (apps/api/src/config.ts):
--     Config;
--   * every request of the API as one step on the database: Server, with the well-formedness of the
--     database in Server/Sound and one module for each group of routes;
--   * the host agent (host-agent/src): Agent/Config and Agent/Join are its configuration, its saved
--     state and its registration, Agent/Preflight the checks before it starts, Agent/Payload
--     validates a creation payload, Agent/Firecracker is the registry of the machines,
--     Agent/Executor does the commands, and Agent/Poll is one poll and one heartbeat against the API;
--   * the web console (apps/web/src): Console/Client is lib/api.ts, Console/Login the page for
--     signing in and the frame of the others, Console/Slug and Console/Dialog the dialog that
--     creates a tenant, Console/Validation the check of its body by the API, Console/Fetch the hook
--     that loads the data of a page, Console/Pages the actions of the pages, and Console/Ui the
--     badges and ages.
--
-- An operator works with the console, which calls the API with the session of the browser. A tenant is
-- created by an operator, who gets a command queued for the host that the scheduler chose; the
-- host's agent claims the command with its next poll, executes it and reports, and the report moves
-- the tenant on. The console and the agent call the handlers of the API directly, on the database
-- that they share.
--
-- An environment (Env) has the answers of what the code calls outside: ids, the clock, random
-- tokens, bcrypt, JSON Web Tokens, the cipher and the gateway. Numbers are natural numbers, the
-- available capacity of a host is a signed one, and times are milliseconds. All loops are recursion
-- on lists or strings, so no fuel is used; the number of polls in Server/Drain counts requests, and
-- is shown to be enough. An interleaving of requests is a sequence of actions on one database, and
-- one of the answers that a page gets is a list of events.
--
-- Not modelled: validation of the request bodies but for the one that creates a tenant, when it
-- comes from the console (Console/Validation), and the creation payload of the agent, HTTP and JSON
-- text, the start of the API and of the agent with their timers and logs, the names that some lists
-- join to a row for display, the programs that the real mode of the agent runs, the measuring of
-- the metrics, the seed of the database, and the markup of the console with the pages that only
-- show data.
mod Prelude
pub mod Prisma
pub mod Enums
pub mod Json
pub mod Rows
pub mod Env
pub mod Action
pub mod Tables
pub mod Query
pub mod Audit
pub mod Auth
pub mod Guards
pub mod Requests
pub mod Secrets
pub mod Providers
pub mod Scheduler
pub mod Tenants
pub mod Hosts
pub mod Commands
pub mod Console
pub mod SecretRoutes
pub mod Agent
pub mod Accounts
pub mod Settings
pub mod McpRoutes
pub mod ProviderRoutes
pub mod Templates
pub mod Logs
pub mod Dashboard
pub mod Serialize
pub mod Config
pub mod Server
pub mod Tests
