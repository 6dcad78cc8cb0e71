-- ===== src/Lib.antt =====
-- The Forge controller (src/forge_controller): the control plane of an autonomous engineering
-- environment. It hands capabilities to workers, classes the content that they read, asks the owner
-- for decisions, and sends requests to models.
--
-- The parts, their files here, and the code that each models:
--
-- - Prelude and its children: Python's lists, sets, dictionaries, text, times and exceptions, as far as
--   the models use them. A `Datetime` is an instant in microseconds and whether it has an offset; a row
--   of checks is a sequence of `if ...: raise ...` statements.
-- - Models: the enumerations of src/forge_controller/models.py.
-- - Capability: capabilities.py and capability_envelope.py. `issue_grant`, `validate_grant`,
--   `preauthorize` and `authorize` keep their names and their order of checks; the patterns of
--   repositories and branches are in Capability/Names, `seal_grant` and `open_grant` in
--   Capability/Envelope. HMAC-SHA256, `json.dumps` and the order in which a process iterates over a
--   frozenset are the fields of a record `Signing`.
-- - Trust: trust_gateway.py. `ingest` is composed of the passes over the parents, the probes and the
--   floor of external content; UTF-8 is spelled out in Trust/Utf8. Probes, SHA-256 and the new
--   identifier are parameters.
-- - Governance: governance.py, governance_store.py and the decision records of assurance.py. The rows of
--   the store are an association list by their unique key. An attempt of `record_denial` reads one
--   table and commits to another, so that what a second session commits in between is seen.
-- - Routing: router.py, quota.py, placement.py and what they use of repository.py. Headers of an
--   observation come parsed. Floats are a parameter, with an order where a theorem compares scores.
--   Comparing a naive time with an aware one raises, as it does in Python.
-- - Decision: decision.py. The level, and what it allows.
-- - Deployment: deployment_policy.py, with the deployments of contracts.py and their rows.
-- - Capsules: `save_capsule` of repository.py. A transaction reads one table and commits to another, and
--   after a lost race reads a third; `payload` stands for the JSON form of a capsule.
-- - Knowledge: `_propagate_stale` of knowledge_graph.py, over the nodes, edges and anchors as lists. The
--   loop has fuel for the roots and for each edge once.
-- - Isolation: high_isolation.py. Its selection between Firecracker and an external machine.
-- - Secrets: secret_broker.py. What `stat` and the YAML parser say of a file is an argument.
-- - Calls: a call of stateful code that may raise, as a function of the state to a result and the next
--   state; `ensuring` is `try: ... finally: ...`. A property that every call keeps is a `Keeps`. Json:
--   decoded JSON, and the `get` and `isinstance` tests on it.
-- - Github: github_broker.py. `push_task_branch` and `create_pull_request` are in Github/Broker, the reading
--   of GitHub's replies in Github/Replies, and `GitHubAppTokenProvider` in Github/Provider. A session is a
--   world with a log of what was sent; the clock, the token provider, Git and the addresses of the API
--   are the fields of `Services`, and files, PyJWT and HTTP under the provider those of `AppHost`.
-- - Telegram: telegram_governance.py. `CallbackCodec` is in Telegram/Codec with base64 spelled out in
--   Telegram/Base64, `poll_once` and `_handle_update` in Telegram/Updates, `register_notification` in
--   Telegram/Notices. SHA-256 and HMAC are the fields of `Hashing`; the clients of the Bot API and of
--   Forge, and the file of the state, those of `TelegramHost`. One thread is modelled, so that the
--   lock does nothing.
--
-- How they interact: a grant is sealed by the issuer and opened by a broker, which authorizes each use
-- and then leases the secret that it is bound to; the broker of GitHub completes the use with the
-- default branch that GitHub reports before it authorizes, and mints a token for each request. A denied
-- use is counted by the store and may interrupt the owner, who answers an open decision, also from a
-- private chat. Content enters by the gateway and carries its envelope; a deployment is qualified, and
-- then a request is placed on it, or waits; work is checkpointed in capsules; what a stale source
-- supports becomes stale.
--
-- The loop of Knowledge runs on fuel, and is shown to end within it. `decimal_from` of Telegram/Codec has
-- one more unit of fuel than the number, whose digits are fewer. All other loops are structural.
-- Not modelled: the parsing of YAML and of requests by pydantic, the overflow of datetimes past the
-- year 9999, the regular expressions of the heuristic probe, the identifiers and update times of rows,
-- the commands of Git under the broker, the daily digest, the HTTP services and clients, and the
-- input and output of the brokers.
pub mod Prelude
pub mod Calls
pub mod Json
pub mod Github
pub mod Telegram
pub mod Models
pub mod Capability
pub mod Trust
pub mod Governance
pub mod Routing
pub mod Isolation
pub mod Knowledge
pub mod Deployment
pub mod Decision
pub mod Capsules
pub mod Secrets
