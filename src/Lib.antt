-- ===== src/Lib.antt =====
-- The core rules of the knowledge base's backend: who may see and change what, how
-- connector synchronisation is queued, how calls are limited, what the approval agent may do, which
-- passages an answer quotes, and which department a document is routed to.
--
-- Accounts        The rows that authorization reads (src/models/user.py, src/models/rbac.py, src/models/article.py).
-- Rbac            src/domain/rbac.py: `AuthorizationService`, one function per method. `scope_allows` is
--                 `_scope_allows`; the loop of `has_permission` is `any` over roles and assignments.
-- Permissions     src/domain/permissions.py: `PermissionService`, on top of Rbac; the set of providers whose ACL
--                 counts comes from src/domain/connector_providers.py.
-- RateLimit       src/core/rate_limit.py: the sliding-window limiter in memory, and the Redis limiter with its
--                 fallback to it.
-- SyncQueue       src/domain/sync_queue.py: enqueue, claim, start, finish and recovery of requests, each a
--                 function from the table's rows to its rows; `Mutex.Step` is the relation of their steps.
-- CircuitBreaker  `CircuitBreaker` of src/rag/cross_encoder.py and the calls of it in src/domain/search_service.py.
-- ApprovalAgent   src/domain/approval_agent.py: rules, risk tiers, the selection of a rule, the reading of the
--                 model's reply (Reply), the decision, its application and the pass over the queue.
-- AccessTokens    src/domain/access_tokens.py: creation, revocation and authentication of tokens.
-- Timeline        src/domain/temporal.py and src/domain/conflict_decisions.py: validity dates, ranking by them, and
--                 the decisions of reviewers on conflicts.
-- IndexRecovery   src/domain/index_recovery.py: the attempts that an error text records, and the sweep over stuck
--                 articles.
-- Governance      src/domain/governance.py, from the submission of a draft to its approval or rejection, with the
--                 queries of src/repositories/governance.py and src/repositories/user.py and the lookups of
--                 src/domain/departments.py. Decisions: submission, approver rules, assignment, rejection.
--                 Selection and Publication: `approve_draft` and what it publishes. Reading: the reading
--                 view. Queue: the list of drafts and the count on the Home card (Awaiting). Candidates:
--                 the batch review. Commit: `commit_candidates`.
--                 Gaps: what readers reported missing. `Workflow.Step` is the relation of the
--                 operations' steps on one draft.
-- EditRequests    src/domain/article_edit_requests.py: a reader's request to correct an article.
-- Retry           src/core/retry.py: the exponential retry; an attempt is the answer of a call.
-- Routing         src/domain/department_routing.py. Sections: the split of a formatted document. Suggest: the ranking
--                 of departments by keywords. Grouping: hollow sections and neighbours. Model: the routing by
--                 a language model, on top of the others.
-- AclAuto         src/domain/acl_auto.py: what a provider's access list means without a mapping; Resolution is
--                 `auto_resolve`, one function per pass.
-- AutoPublish     src/domain/department_auto_publish.py: the sweep over departments without a review, which calls
--                 `approve_draft` of Governance and the risk tiers of ApprovalAgent; `follow_up` is the end of
--                 `approve_draft`, behind its commit.
-- Versions        src/domain/article_changes.py: the selection of the versions that are compared.
-- Text            Python's operations on texts, as lists of code points.
-- Prelude         Tests on numbers, Python's `any`, `all` and comprehensions, equality, dicts.
--
-- A component's file holds its definitions; the modules below it hold the theorems, and Examples
-- the theorems at concrete inputs.
--
-- A row is a record, a table a list of rows, a nullable column an `Option`, a UUID a number, a point in
-- time a number of seconds (of days in Timeline). The clock's readings and the keys that the
-- database gives are arguments. A method that runs under a lock or in one transaction is one step.
-- Numbers are unbounded, as in Python. The definitions recurse on lists, a retry on the
-- attempts that are left; `passes` in
-- IndexRecovery.Attempts counts the passes it makes, and three are shown to be enough.
--
-- Code that is not under src/ comes as an argument: SHA-256, text folding and the random
-- text of a token (AccessTokens), `json.loads` and the language model (ApprovalAgent), the replies of
-- Redis (RateLimit), the regular expression that reads an attempt and the printing of numbers (IndexRecovery), the folding and
-- stripping of texts and the result of the restructuring model (Governance, EditRequests), the
-- operation that is tried again (Retry), the lower case of texts and the model's client (Routing), the
-- folding of names and the search for addresses (AclAuto), and whether a rollback expires the rows
-- loaded before it (AutoPublish; the approval agent's pass is modelled without such expiry).
-- Some code of the repository is an argument too: what the agent calls of
-- src/domain/governance.py and src/repositories/user.py (`Services` in ApprovalAgent), the comparison of
-- two snapshots (Versions), and the outcomes of the steps that follow a publication (`FollowUps` in
-- AutoPublish), of which the order and the rollbacks are modelled.
-- The queries behind the tables are lists that are given.
--
-- Not modelled: the HTTP API, the other queries of the repositories, the migrations, the workers' wiring, the model and
-- provider clients, text extraction, and the services that only order such calls. Of
-- the approval of a draft the writing of the article's other columns, the indexing and the followers'
-- notifications are left out. Chunking is not modelled either.
pub mod Prelude
pub mod Accounts
pub mod Rbac
pub mod Permissions
pub mod RateLimit
pub mod SyncQueue
pub mod Text
pub mod Routing
pub mod AclAuto
pub mod AutoPublish
pub mod Versions
pub mod CircuitBreaker
pub mod ApprovalAgent
pub mod AccessTokens
pub mod Timeline
pub mod IndexRecovery
pub mod Governance
pub mod Retry
pub mod EditRequests
