-- ===== src/Lib.antt =====
-- Superviseur is a supervision system for building automation. Its collector reads points of BACnet
-- devices, records their values and writes setpoints; its alarm service turns values and events
-- into alarms and notifies people; its API lets users look, acknowledge and write. The processes
-- meet in a database and on Redis. This library models the decisions of the collector, the alarm
-- service and the account checks, and leaves the database, Redis, the network and the clocks as
-- parameters.
--
-- Which file models which part (paths from the repository's root): Models
-- backend/app/common/models.py: the enumerations all parts share. Auth/Permissions
-- backend/app/auth/permissions.py: has_role and its table of levels. Auth/Lockout
-- backend/app/auth/lockout.py: LoginGuard. Its Redis is the record Redis of Lockout/Server, with
-- the documented effect of each command as hypotheses; the guard's times and limit are positive and
-- below the bounds of Redis. Alarms/Machine
-- backend/app/alarms/machine.py: AlarmMachine; update and acknowledge return the new machine and
-- the transitions. Machine/Diagram has the state diagram. Alarms/Rules
-- backend/app/alarms/rules.py: evaluate_value, is_stale, is_abnormal_event_state. Alarms/Records
-- backend/app/alarms/store.py and messages.py: the data of rules, events and messages; the record
-- Effects is all that the engine calls. Alarms/Store      backend/app/alarms/store.py:
-- MemoryAlarmStore. Alarms/Runtime    backend/app/alarms/engine.py: RuleRuntime with _persist,
-- _update and the rule's part of acknowledge. Alarms/Engine     backend/app/alarms/engine.py:
-- AlarmEngine, its indexes and handlers; load and what it calls are in Engine/Load.
-- Alarms/Notifier   backend/app/alarms/notifier.py: targets, submit, _route, flush_due, _deliver.
-- Alarms/Commands   backend/app/alarms/commands.py: process and execute of acknowledgements; and
-- backend/app/alarms/runner.py: dispatch. Reading the JSON is a parameter. Auth/Tokens
-- backend/app/auth/tokens.py: decode_token, over what the jwt package decodes. Api/Session
-- backend/app/db/models.py and api/audit.py: users, the journal, record_audit. Api/Deps
-- backend/app/api/deps.py: load_user, current_user, require_role. Api/Users
-- backend/app/api/routes/users.py: create, update, unlock and delete a user. Api/Login
-- backend/app/api/routes/auth.py: login and its cookies. Api/Write
-- backend/app/api/routes/write.py: write_point; sending the command and waiting for its result is
-- an effect. Api/Synoptics     backend/app/api/routes/synoptics.py: creating, saving, restoring,
-- reading and deleting synoptics and their versions; the requests in a row are in
-- Synoptics/History, two editors in Synoptics/Conflicts. Api/History       backend/app/api/routes/points.py: point_history up to its
-- queries, and the texts and sizes of buckets. Api/Tree
-- backend/app/api/routes/points.py: points_tree. The order by name is a parameter.
-- Api/PointSettings backend/app/api/routes/points.py: update_point, with its form in schemas.py.
-- Api/RuleForm      backend/app/api/schemas.py: AlarmRuleIn, AlarmRuleUpdate, validate_channel;
-- and backend/app/alarms/channels.py. What urlparse answers is a parameter. Api/AlarmRules
-- backend/app/api/routes/alarms.py: create_rule, update_rule, delete_rule. Api/Realtime
-- backend/app/api/routes/ws.py: the messages of a client, _pump, _authenticate. Api/Expr
-- backend/app/api/synoptic_expr.py: the parser; Expr/Lexer has the tokens, and Expr/Grammar the
-- documented grammar. Api/Doc           backend/app/api/synoptic_doc.py: safe values and images;
-- Doc/Slug has slugs and ids, Doc/Schema the validation of a document from its typed fields.
-- Collector/Registry    backend/app/collector/registry.py, with the data of driver_base.py.
-- Collector/Recorder    backend/app/collector/recorder.py: should_store, handle, and flush cut in
-- two at its wait, so that readings may come in between. Collector/Writer
-- backend/app/collector/writer.py: process, execute, _refusal, _refresh. Collector/Normalizer
-- backend/app/collector/normalizer.py: values, status flags, readings, units. Collector/Poller
-- backend/app/collector/poller.py: the points that are due; Poller/Cycle has a cycle of reads and
-- what it does to the device. Collector/Cov         backend/app/collector/cov.py: service, and a
-- round of run. Collector/ConfigSync  backend/app/collector/config_sync.py: reload.
-- Collector/Discovery   backend/app/collector/discovery.py: run_discovery. Prelude
-- shared names; lists, integers, floats, dicts and texts. Tests                 runs of the
-- definitions on concrete inputs.
--
-- How the parts interact: the engine's handlers look up rules in its indexes, apply the
-- conditions of Rules, step the Machine of each rule, record the transitions through the store
-- and submit notifications to the Notifier. The recorder takes the points of the Registry, whose
-- tracking outlives a reload; the poller, the subscriptions and the reload of settings change
-- that tracking, and the poller hands its readings to the recorder. The writer checks a command
-- against the user's role and the point, as the route that sends the command did before. The
-- routes on accounts use the login guard, and the commands of users reach the engine after a
-- second check of the role. The routes on rules and on the settings of points tell the engine and
-- the collector to read them again; the routes on synoptics validate each document with
-- Doc/Schema and name it with Doc/Slug.
--
-- Conventions:
--   * UUIDs are natural numbers. Instants and durations are natural numbers of ticks of 10⁻¹²
--     seconds, the unit of the finite floats.
--   * A float is a whole number of ticks, an infinity, or not a number. Comparisons are those of
--     IEEE 754; sums and differences are exact, without rounding or overflow.
--   * A dict is a list of pairs in order of insertion, as in Python.
--   * A text whose characters matter is a list of character codes; lower and strip are those of
--     ASCII.
--   * An exception is a value: none or false from a parameter, and none from an Action of the
--     runtime, with the assignments made before it kept.
--   * A handler that runs under a lock is one step; where waits matter, they are events in a list.
--   * Loops are recursions on their lists or on their number of attempts. Five definitions use
--     fuel: tokens_from has one unit for each character and one more, and each round takes a
--     character; or_ has one unit for each token and one more, and each nested call and each
--     round of a loop takes a token; chunks_from has one unit for each item; free_slug has one
--     unit for each synoptic and two more, and each round tries another slug; digits has one unit
--     more than the number. When the fuel of the first two runs out, they answer out_of_fuel.
--   * A database answers, except where a parameter says otherwise, and each request to the API is
--     one step. Whether Redis takes the message of a route on rules or points is the argument
--     `reached`; a command that is sent to wait for its result may raise. The WebSocket's
--     subscriptions on Redis succeed. A role_id is written as the name of the role.
--   * A cycle of the poller, a round of subscriptions and a discovery are one run each, without
--     what other tasks do at their waits.
--   * A document is given by the typed fields that pydantic reads; its texts are ASCII and its
--     coordinates finite.
--
-- Not modelled: the endless loops that call these operations, SQL and mail, the texts of messages,
-- the BACnet driver, the lists of points, devices, synoptics and journal entries, which are queries,
-- the renewal of tokens, the start of the processes and their configuration files, the simulator and
-- the front end. The journal entries of the rules of alarms and of the settings of points are written
-- without their values.
pub mod Prelude
pub mod Models
pub mod Auth
pub mod Alarms
pub mod Collector
pub mod Api
pub mod Tests
