-- ===== src/Lib.antt =====
-- Protek, a CrowdSec bouncer with a dashboard: it mirrors the ban decisions of CrowdSec LAPIs in a
-- database and keeps the address lists of firewalls equal to them.
--
-- A cycle of the program: the poller pulls the decisions of each source into the table `decisions`
-- (poller.py); the reconciler takes the desired decisions, filters them for each bouncer, compares
-- them with a snapshot of the bouncer's address list and sends the difference, and writes the totals
-- to `sync_events` (reconciler.py over reconcile.py). Beside it, token buckets hold back the calls to
-- the outside (ratelimit.py), and composite rules raise alerts on what the cycles leave behind
-- (alerting.py); a read of the routers' rules says whether they drop what is pushed (blocking.py), and
-- a sweep bounds the tables that only grow (retention.py).
--
-- Prelude: shared notation and lemmas. Texts are lists of code points, a Python dict is an
--   association list in insertion order (Dict), numbers are native naturals. Decimal prints with the
--   number itself plus one as fuel, and reading the print back shows that this is enough.
-- Reconcile: reconcile.py. Comment is the ownership comment (encode_comment, decode_comment,
--   is_owned); the parent is `reconcile`, its two dicts and two loops, one step function each.
-- Reconciler: reconciler.py. Bouncer is what the reconciler sees of an adapter and its settings,
--   Filter is _filter_desired_for_bouncer, RunOne is _run_one_bouncer with _bouncer_is_dry, RunOnce is
--   run_once with the tables it writes. A bouncer's snapshot and apply are given by the adapter, and
--   so are the milliseconds they take; what is sent is a list of calls.
-- Desired: reconciler.py, _desired_from_db, with matches_whitelist and queue_decision of
--   scenarios_admin.py: the query, the whitelist and the approval queue over the tables.
-- Ingest: poller.py, _bootstrap, _stream_apply and _upsert_decision; Pull is _pull_source with the
--   backoff of a source, over histories of cycles. The UNIQUE constraint of the table is the key of
--   an association list; a statement in autocommit is one update, so a loop that raises leaves the
--   updates before it. A change of the connection settings (_sync_connection) starts a source over.
-- Poller: poller.py, tick and the loop around it. Run has the object, the calls that a cycle makes
--   and the monad of its steps; Upkeep, Cycle and Finish are the three parts of a cycle. Which calls
--   raise is an argument, so a cycle may end early at any call that no handler covers. The pulls run
--   side by side and each touches its own source; they are called in the order of the sources.
-- Adapter: bouncers/. Mikrotik is mikrotik_adapter.py (repeated in mikrotik_db_adapter.py) with
--   get_address_list of mikrotik.py; the router and the library that talks to it are a parameter with
--   a state of their own, and Cycle has the adapter as the bouncer of a run of the reconciler.
-- RateLimit: ratelimit.py. Time is in milliseconds and a token has 6,000,000 units, so that rates are
--   whole numbers: the floating-point rounding is not modelled.
-- Alerting: alerting.py. The rules, the debounced transitions, the silences and the routing of a
--   tick over the table `alert_states`.
-- Blocking: blocking.py. The parent is _analyze_family on rules as dicts of texts; Analyze has the
--   verdict on a router and on all of them, the cached IPv6 counts, the pill and the label.
-- Retention: retention.py. A table is the list of its rows by id, a batched DELETE takes the oldest
--   that pass its test, and the deadline is the number of turns that it allows each loop.
-- Delivery: the path from the tables to the calls at a router, over Desired and Reconciler.
-- Auth: auth.py and the password form of app.py. Lockout is the table login_attempts, Login the form,
--   the allowlist and the gates of the routes, Redirect is safe_next, Users the table users with the
--   boot that seeds it and upsert_sso_user of oidc.py, which the logins over an identity provider call.
-- Tokens: api_tokens.py. The table api_tokens, the scopes and require_token. An expiry is the text that
--   was given; reading it raises, or gives an instant or a time without a zone, which lookup cannot
--   compare.
-- Webhooks: webhooks_out.py. The subscribers and the dead letters are two tables with the ids that
--   AUTOINCREMENT gives out; the outside (token bucket, POST, sleep) has a state of its own. Admin is
--   the page /webhooks, History any sequence of operations, and Trial says by relations what a POST
--   and a delivery should come to. A payload is its JSON text.
-- Federation: federation.py. The table sources with the statements on it; the clients of a cycle are
--   the rows that are enabled and not paused.
-- Ha: ha.py. The role from the settings and the environment, its changes, and the heartbeat.
-- Siem: siem.py. The parent has the journal, the bounded queue and the worker; Syslog the line, its
--   frame on TCP and the retry, with the socket's operations as a parameter. The lock orders the
--   operations on the queue, so a history of them is a list.
-- Disk: disk_watchdog.py. The alerts with their hysteresis, the samples, the choice of a rebaseline,
--   and in Wal the guard of the write-ahead log. Whether a write to the database works is an argument.
--
-- Not modelled: the texts of log lines, notes and messages, which are constructors where a caller
-- reads them; threads (the reconciler waits for every bouncer, and the results are folded in the order
-- of submission; each worker takes one event after another); lower() and upper() beyond A to Z;
-- negative settings; the SQL of the alert snapshot, whose result is an argument; the notification of a
-- whitelist hit. fnmatch, re, ipaddress, json, datetime.fromisoformat, bcrypt, pyotp, sha256, urlparse,
-- isalnum, the sockets and the reputation table are parameters; the headers, the signature and the
-- timestamps of a webhook are left out. The pages of app.py but for the login, the APIs, the other
-- adapters, backups, reputation and intel, the protocols of single sign-on, notifications and the
-- remaining services are not modelled.
pub mod Prelude
pub mod Reconcile
pub mod Reconciler
pub mod RateLimit
pub mod Alerting
pub mod Ingest
pub mod Blocking
pub mod Retention
pub mod Desired
pub mod Auth
pub mod Delivery
pub mod Disk
pub mod Tokens
pub mod Adapter
pub mod Poller
pub mod Siem
pub mod Federation
pub mod Ha
pub mod Webhooks
