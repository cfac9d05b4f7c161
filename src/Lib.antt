-- ===== src/Lib.antt =====
-- The core of a national single window: cases and the workflows that run on them.
--
-- Parts and files
--   Caseflow: the flows of a case (internal/caseflow).
--     Rows and Exec hold the tables, the errors and the database connection. A statement is a
--     function on the tables that any connection may refuse; with_tx is withTx of repository.go.
--     Repository is repository.go: EnsureCase is ensure_case, Record is record_flow, MarkStarted is
--     mark_started, MarkCompleted is mark_completed, Get and ListByCase are get and list_by_case;
--     CaseAttributes and SharedAttributes are in Repository/Attributes.
--     Service is service.go: StartFlow is start_flow, and resume, start, definition and newFlowRow
--     keep their names; CompletionHandler is completion_handler.
--     Config is config.go: Validate, CheckWorkflows and the lookups Find and Startable.
--     Client is client_handler.go: HandleStart is handle_start.
--   Taskauthz: who may act on a task and read it.
--     The module itself is internal/tasks/taskauthz: Eligible is eligible, RoleNames role_names.
--     Write is internal/tasks/extensions/authz: Execute, MayAct, MayActOnStep and Register keep their
--     names. Read is internal/tasks/readauthz: Resolve is resolve. Gate is internal/tasks/authzgate,
--     whose resolve is resolve_input, and internal/caseparty: RolesOf is roles_of, Assign is assign.
--   Cdn: dispatch notes at the customs' ASYCUDA system (external-integration/customs/asycuda/cdn).
--     The module itself is models.go and repository.go: GetByEdgeID, GetByCDNRef, RecordSubmitted and
--     Update keep their names. Parked is asycuda/parkedtask. Callbacks is service.go, resume.go,
--     cancellation.go and amendment.go: ProcessIntegrationResult is process_integration_result, and
--     so on; resumeWait is resume_wait.
--   Document: the registered reference of a customs document (asycuda/document/document.go): String is
--     format_reference, ParseReference is parse_reference.
--   Cusdec: customs declarations (external-integration/customs/asycuda/cusdec). The module itself is
--     models.go and repository.go; Requests is how the callbacks are read and validated; Callbacks is
--     service.go, Notices amendment.go and cancellation.go. The handlers keep their names:
--     ProcessEvent is process_event, completeEventTaskAndMetadata is complete_event.
--   Retry: callbacks that arrive early (external-integration/customs/asycuda/retry.go): schedule and
--     retry keep their names.
--   Webhook: the route of all callbacks (asycuda/handler.go): HandleWebhook is handle_webhook,
--     holdIfEarly is in respond, and each handler's answers are a function. Webhook/Applier is
--     applyCallback of retry.go with its own table of appliers: apply_callback, appliers, event_applier,
--     apply_as and ignore.
--   Claims: who works on a task (internal/tasks/claim_handler.go): HandleClaimTask is handle_claim,
--     HandleReleaseTask is handle_release, and the helpers keep their names.
--   Filetoken: grants sealed into tokens (internal/storage/filetoken): Seal is seal, Open is
--     open_token, ParseKeyset is parse_keyset.
--   Trade: the system tasks of a consignment's workflow (internal/trade). Split is
--     plugin_hscode_split.go: HscodeSplitBuilderFunc is build, and its helpers keep their names. Cha is
--     plugin_cha_persist.go: Execute is execute, assignCHA is assign_cha, chaSeed is cha_seed; it
--     reads the company by GetCompanyByID of internal/profile/company, as get_company.
--   Forcepark: internal/workflowadmin/force_park.go: ForceParkTaskNode is force_park_task_node, and the
--     helpers keep their names.
--   Principal: the caller of a request (internal/authn/principal.go).
--   Common: the helpers on lists, texts, numbers in decimal, tables of rows, maps and JSON values.
--
-- How they interact: the client route looks its caller up in the flow list and asks the service
-- to start a flow; the service records it in the repository, asks the workflow engine to run it
-- and records that it did. The engine calls the completion handler. A command on a task is
-- judged by the rules of its step, the caller's token and the parties of its case, which a
-- recorded flow's owner is one of; a claim on it, by the same right to read. A customs callback
-- completes the step that a flow's task waits on and then moves the declaration or the dispatch
-- note; the webhook routes it there, and one that comes early is held and retried. The trade
-- plugins run as steps of a consignment's workflow: one gives the workflows of its HS codes, the
-- other records the chosen CHA's OU as a party of the case, by the Assign that the task gate reads.
--
-- Choices
--   Each SQL statement, and the begin and commit of a transaction, fails where the connection's
--   list of faults says so; a commit that fails is taken as not applied. What other requests
--   commit between two repository calls of a start is a list of arbitrary changes. Go maps are
--   association lists, or functions where they are only read by key, and a Go value that
--   encoding/json refuses is `opaque`. A count of Go's int that the code only takes when it is
--   positive is a natural number.
--   A body is a text that decoders read, one for each request; times are numbers of nanoseconds or
--   of seconds, 0 where one is missing, and a token's plaintext is the struct that it decodes to.
--   The loops are over lists, but for the retries: they run on fuel, one more than the window,
--   which is enough where the waits are positive: each attempt then takes a unit of time.
--
-- Not modelled
--   Timestamps of cases, so ListByCase keeps the order of insertion; row locks, which order transactions; log
--   lines and the texts of errors. The artifact registry, the workflow engine, the template loader,
--   JSON pointers, task records, claims and uuids belong to the core library and are parameters, as are SHA-256
--   sums, ciphers, base64, and the wording of customs errors (cdn/errors_render.go and describeErrors of
--   cusdec/integration_result.go). The callbacks are modelled one after another, as the retries
--   deliver them.
pub mod Common
pub mod Principal
pub mod Caseflow
pub mod Taskauthz
pub mod Document
pub mod Cdn
pub mod Cusdec
pub mod Retry
pub mod Webhook
pub mod Claims
pub mod Filetoken
pub mod Trade
pub mod Forcepark
