-- ===== src/Lib.antt =====
-- mailcow-watchdog: a verification library for the watchdog of a mailcow stack.
--
-- The program probes the services of a mail server round by round. Every check has a budget of error
-- points; when it is used up, the check raises an event, and the supervisor restarts the service's
-- container or notifies the operator. A gate pauses all checks during a restart and while the
-- dockerapi is away.
--
-- Startup and Startup.Run (cmd/watchdog/main.go): the start of the program. `connect`, `wait_for`,
-- `settle`, `build`, `check_ipv6`, `announce_start`, `wait_for_obs` and `run` are the functions of the
-- same names; the state is the world, the trace of what was opened, closed and reported, and the
-- closers. The number of attempts of `wait_for` is not a bound of the program: Waiting says which
-- numbers suffice.
--
-- Health (internal/health/health.go): the error accounting. `Tracker` is the struct of the same name,
-- `record_round`, `heal`, `reset`, `current` and `percent` are Record, Heal, Reset, Snapshot and
-- Percent. Each method holds the mutex and so is one step.
--
-- Probe (internal/probe/probe.go): the verdict of a measurement and its cost; `run_probe` is Run and
-- `cost` is Cost. Probe.Redis, Probe.Mysql and Probe.Mailq are redis.go, mysql.go and mailq.go; what
-- such a probe remembers from round to round is an explicit state. Probe.Talk has the steps of a
-- conversation, each of which may end the probe with a verdict, and Probe.Peer the connection that it
-- is held over; Probe.Tcp (with Exchange), Probe.Smtp, Probe.Imap, Probe.Dns, Probe.Http (http.go,
-- rspamd.go and external.go), Probe.Ipv6 and Probe.Cert are built of them. A run of each is `run_` and
-- its name.
--
-- Check (internal/check/check.go): one check and its transcript. Check.Cadence and Registry
-- (internal/check/registry.go): the sleep windows, the table of the checks, and Build. Check.Resolver
-- is resolver.go.
--
-- Supervisor.Gate (internal/supervisor/gate.go): channels are numbers. Wait is two steps, taking the
-- channel and testing it, since the mutex is released in between.
--
-- Supervisor.Runner (internal/supervisor/runner.go): Run as a number of passes over an environment that
-- answers for the gate, the clock, the store and the event channel. The number of passes is not a
-- bound of the program: the theorems hold for every number, and Progress says how many suffice.
--
-- Supervisor.Actions, Supervisor.Handler and Supervisor.Watcher (internal/supervisor/supervisor.go):
-- handle with all that it calls, and watchDockerAPI. A state is the world and a trace of the calls of
-- the collaborators. Overlap is the step relation of a restart and the watcher on their common gate.
-- Supervisor.System is what Run starts: the runners, the handler and the watcher as one step relation
-- over the gate and the event channel.
--
-- Notify (internal/notify/notify.go): Render, Multi and Dispatch. Notify.Smtp (smtp.go) delivers to the
-- exchangers of each recipient, Notify.Webhook (webhook.go) fills the template and posts it.
--
-- Store (internal/store/store.go): the throttle, the readers and the log entries, over the commands of
-- the Redis client; Store.Fake is internal/store/storetest/fake.go. Metrics
-- (internal/metrics/metrics.go) is the value of each series after the calls made. Obs
-- (internal/obs/obs.go and internal/logging/logging.go): what the endpoint answers, and the log level.
--
-- DockerApi (internal/dockerapi): both dialects, and the look-up of containers and addresses over one
-- transport; Wire is that transport over HTTP, Endpoint is New. Whois (internal/whois/whois.go): the
-- look-up of an address and its one referral.
--
-- Config (internal/config): Load and validate, read one variable at a time by Config.Env.
--
-- Prelude holds the shared names, lists, integers and texts, and what the program uses of Go's
-- standard library. Tests holds concrete inputs.
--
-- Numbers are natural numbers where the source cannot make a negative one, and integers elsewhere; no
-- count comes near the bounds of a machine integer. Durations are in nanoseconds. Two loops of the
-- source have a bound of their own: readUntil, whose reading limit is also the number of reads, which
-- suffices as each read brings a byte or an error; and the ten attempts of the IPv6 look-up.
--
-- Not modelled: the structured logger, the HTTP server behind the observability endpoint, the latency of
-- a probe and deadlines (they are part of the world). The JSON decoder, the parser of durations and
-- URLs, the clients of SQL, Redis, HTTP, SMTP and DNS, TLS and the dialling are parameters.
pub mod Prelude
pub mod Health
pub mod Probe
pub mod Check
pub mod DockerApi
pub mod Notify
pub mod Supervisor
pub mod Config
pub mod Registry
pub mod Store
pub mod Whois
pub mod Metrics
pub mod Obs
pub mod Startup
pub mod Tests
