-- ===== src/Startup.antt =====
-- cmd/watchdog/main.go: the start of the program. What it asks of the system, of the libraries and of
-- the running supervisor is a record over the world; the connections that it opens and closes, and
-- what it does with them, are kept in a trace, the newest first. A wait that has not ended after the
-- given number of attempts is none. The logger is left out.
pub mod Run
pub mod Waiting
pub mod Handles
pub mod Launching
pub mod Cleanup
pub mod Readiness
pub mod Answering
use mailcow_watchdog.Prelude.{
  ℕ, zero, suc, ◌*◌, Bool, true, false, not, String, List, [], ◌∷◌, Option, none, some, Result, ok,
  err, str_eq, if◌then◌else◌,
}
use mailcow_watchdog.Prelude.Int.{ℤ, pos, pos_part, ltb_ℤ}
use mailcow_watchdog.Prelude.Text.{Text, codes}
use mailcow_watchdog.Prelude.Format.{str, sprintf}
use mailcow_watchdog.Check.{second}
use mailcow_watchdog.Config.{Config, app_dsn, root_dsn}
use mailcow_watchdog.DockerApi.{Client}
use mailcow_watchdog.DockerApi.Dialects.{Dialect, parse_dialect}
use mailcow_watchdog.DockerApi.Endpoint.{ParsedUrl, Endpoint, new_client}
use mailcow_watchdog.Notify.{Alert, Notifier, Dispatcher, new_multi, enabled, send_all, dispatch}
use mailcow_watchdog.Notify.Smtp
use mailcow_watchdog.Notify.Smtp.{Mailer, Sender, new_smtp, send}
use mailcow_watchdog.Notify.Webhook
use mailcow_watchdog.Notify.Webhook.{Webhook, new_webhook, post}
use mailcow_watchdog.Probe.Ipv6.{Reflectors, Networks, LocalAddr, address, ipv6_configured}
use mailcow_watchdog.Registry
use mailcow_watchdog.Registry.{Plan}
use mailcow_watchdog.Store
use mailcow_watchdog.Supervisor.Actions.{SendOutcome, sent, disabled}

-- `dependencyPoll`.
abbrev pub dependency_poll : ℕ
dependency_poll = 2 * second

-- The connections that `connect` opens.
pub data Handle : Type 0 where
  app_db root_db redis local_redis : Handle

pub data Action : Type 0 where
  opened closed : Handle → Action
  available : String → Action
  ready_set : Action
  initialised : String → ℕ → Action
  alerted : Alert → Action
  notification_observed : SendOutcome → Action
  supervised : List Plan → Action

-- `cancelled` is `ctx.Err`; `pause` is the choice between a timer and the end of the context, with its
-- error; `await_end` is the wait for that end alone. `ping` tests a dependency within its time;
-- `supervise` is the run of the supervisor on its checks, and `obs_end` what the observability server
-- returned, none if the time for it ran out.
pub record Host (World : Type 0) : Type 1 where
  pub cancelled : World → Option String
  pub pause : ℕ → World → Option String × World
  pub await_end : World → World
  pub open_db : String → World → Option String × World
  pub ping : Handle → World → Option String × World
  pub close : Handle → World → World
  pub parse_url : String → Result String ParsedUrl
  pub mailer : Mailer World
  pub http_post : String → Text → World → Webhook.Answer × World
  pub store : Store.Client World
  pub unix_date : World → String
  pub networks : Networks
  pub local_addrs : World → Result String (List LocalAddr)
  pub reflectors : Reflectors World
  pub supervise : List Plan → World → Option String × World
  pub obs_end : World → Option (Option String) × World

pub record State (World : Type 0) : Type 0 where
  pub world : World
  pub trace : List Action
  pub closers : List Handle

abbrev pub emit : {World : Type 0} → Action → State World → State World
emit a s = record s { trace = a ∷ s.trace }

-- A handle is opened and its closer kept, the newest first.
abbrev pub open_handle : {World : Type 0} → Handle → State World → State World
open_handle h s = record s { trace = opened h ∷ s.trace; closers = h ∷ s.closers }

abbrev pub start : {World : Type 0} → World → State World
start w = record { world = w; trace = []; closers = [] }

-- A stage may fail, or still wait when its attempts are used up.
abbrev pub Stage : Type 0 → Type 0 → Type 0
Stage World A = State World → Option (Result String A × State World)

abbrev pub go_on :
    {World A B : Type 0}
    → (A → Stage World B)
    → Option (Result String A × State World)
    → Option (Result String B × State World)
go_on f none = none
go_on f (some (err e, s)) = some (err e, s)
go_on f (some (ok a, s)) = f a s

infixl 5 ◌>>=◌ ◌>>◌
abbrev pub ◌>>=◌ : {World A B : Type 0} → Stage World A → (A → Stage World B) → Stage World B
◌>>=◌ m f s = go_on f (m s)

abbrev pub ◌>>◌ : {World A B : Type 0} → Stage World A → Stage World B → Stage World B
m >> k = m >>= λ _. k

abbrev pub pure : {World A : Type 0} → A → Stage World A
pure a s = some (ok a, s)

-- A computation that is over at once.
abbrev pub lift : {World A : Type 0} → Result String A → Stage World A
lift r s = some (r, s)

abbrev pub named : {A : Type 0} → String → Result String A → Result String A
named format (err e) = err (sprintf format (str e ∷ []))
named format (ok a) = ok a

-- What the checks share; the database handles and the stores are in the host.
pub record Dependencies (World : Type 0) : Type 0 where
  pub docker : Client × Endpoint
  pub dispatcher : Option (Dispatcher World)

-- `resolverName`.
abbrev pub resolver_name : Bool → String
resolver_name use_api = if use_api then "dockerapi" else "dns"

-- What the wait of `connect` comes to.
abbrev pub waited :
    {World : Type 0}
    → String
    → Option (Option String × World)
    → State World
    → Option (Result String (Unit {0}) × State World)
waited what none s = none
waited what (some (none, w)) s = some (ok tt, emit (available what) (record s { world = w }))
waited what (some (some e, w)) s = some (err e, record s { world = w })

-- What `sql.Open` comes to; its closer is added.
abbrev pub opened_db :
    {World : Type 0}
    → String
    → Handle
    → Option String
    → State World
    → Option (Result String (Unit {0}) × State World)
opened_db format h none s = some (ok tt, open_handle h s)
opened_db format h (some e) s = some (err (sprintf format (str e ∷ [])), s)

-- `store.New`, which connects to nothing yet.
abbrev pub open_store : {World : Type 0} → Handle → Stage World (Unit {0})
open_store h s = some (ok tt, open_handle h s)

module _ {World : Type 0} (host : Host World) where
  -- `settle`: no delay, or a pause.
  unfoldable pub settle : ℤ → World → Option String × World
  settle delay w =
      let paused = host.pause (pos_part delay) w in
      if not (ltb_ℤ (pos 0) delay) then (none, w) else paused

  -- `waitFor`, for a number of attempts.
  unfoldable pub wait_for :
      ℕ → (World → Option String × World) → World → Option (Option String × World)
  wait_for zero probe w = none
  wait_for (suc n) probe w =
      let (failed, w₁) = probe w in
      let (interrupted, w₂) = host.pause dependency_poll w₁ in
      let rest = wait_for n probe w₂ in
      elim failed [
        | none ↦ some (none, w₁)
        | some e ↦ elim (host.cancelled w₁) [
          | some why ↦ some (some why, w₁)
          | none ↦ elim interrupted [ some why ↦ some (some why, w₂) | none ↦ rest ]
        ]
      ]

  -- The wait of `connect` for one dependency.
  unfoldable pub await : ℕ → String → Handle → Stage World (Unit {0})
  await attempts what h s = waited what (wait_for attempts (host.ping h) s.world) s

  -- `sql.Open`.
  unfoldable pub open_sql : String → Handle → String → Stage World (Unit {0})
  open_sql dsn h format s =
      let (failed, w) = host.open_db dsn s.world in
      opened_db format h failed (record s { world = w })

  -- The channels of `connect`, as far as they are configured.
  abbrev pub mail_channel : Config → Option (Notifier World)
  mail_channel cfg =
      elim (new_smtp (record {
        from = cfg.notify.from;
        helo = cfg.notify.helo;
        recipients = cfg.notify.emails;
        port = 0;
      })) [ none ↦ none | some sender ↦ some (send host.mailer sender) ]

  abbrev pub hook_channel : Config → Option (Notifier World)
  hook_channel cfg = elim (new_webhook cfg.notify.webhook (codes cfg.notify.webhook_body)) [
    | none ↦ none
    | some hook ↦ some (post host.http_post hook)
  ]

  unfoldable pub make_dispatcher : Config → Option (Dispatcher World)
  make_dispatcher cfg =
      let channels = new_multi (mail_channel cfg ∷ hook_channel cfg ∷ []) in
      if enabled channels
      then some (record {
        notifier = some (send_all channels);
        reserver = some (Store.reserve host.store);
        subject_prefix = cfg.notify.subject;
        now = host.unix_date;
      })
      else none

  unfoldable pub make_docker : Config → Result String (Client × Endpoint)
  make_docker cfg = elim (named "DOCKER_API_DIALECT: %w" (parse_dialect cfg.docker.dialect)) [
    | err e ↦ err e
    | ok dialect ↦ new_client host.parse_url (record {
      base_url = cfg.docker.base_url;
      project = cfg.mailcow.compose_project;
      ipv4_network = cfg.mailcow.ipv4_network;
      dialect = dialect;
    })
  ]

  -- `connect`.
  unfoldable pub connect : ℕ → Config → Stage World (Dependencies World)
  connect attempts cfg = do
    open_sql (app_dsn cfg.db) app_db "opening the mailcow database: %w"
    if cfg.checks.mysql_repl.enabled
        then open_sql (root_dsn cfg.db) root_db "opening the database as root: %w"
        else pure tt
    open_store redis
    if str_eq cfg.redis.addr cfg.redis.local_addr then pure tt else open_store local_redis
    await attempts "SQL" app_db
    await attempts "Redis" redis
    docker ← lift (make_docker cfg)
    pure (record { docker = docker; dispatcher = make_dispatcher cfg })
