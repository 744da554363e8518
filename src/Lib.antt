-- ===== src/Lib.antt =====
-- The collaboration runtime of agent-comm (python/agent_comm_runtime): the policy that decides what
-- an agent may disclose on its owner's behalf, and the bridge through which paired consoles read and
-- steer the agent. The bridge checks each request against a local pairing, routes it to the store or
-- to a conversation turn, keeps the answer for replays, and hands the turns to the host one by one.
--
-- Which file models what:
--   Prelude (Tests, Lists, Text, Sets, Order)  shared names; texts are compared by code points
--   Json         decoded JSON; the fields of an object are in the order of the text
--   Runtime      an interface: the parser of ISO times, the JSON codec, SHA-256, the prefix of a text
--   Identity     identity.py `validate_urn`, and `identifier` of remote.py
--   Table        the rows of one kind in the database: `_get` is get, `_put` is put, `_all` is rows;
--                Table.Laws and Table.Sorted are the laws that the proofs use
--   Policy       policy.py: Fault (`_ValidationError`), Fields (`_object`, `_string`, `_identifier`,
--                `_ids`, `_integer`), Time (`_time`, `_interval`), Scope (`validate_scope`), Action
--                (`validate_action`), Evaluate (`evaluate`, in the stages judge_now, judge_at,
--                judge_checked, judge, one for each group of its early returns), Message
--                (`compile_message`, over a given JSON encoder and ISO formatter), Encode (the JSON of what
--                the validators return), Render (`render_scope`, `render_action`)
--   Remote       remote.py: State (the rows, and exceptions as an Outcome), Parse (`_parse`), Pairing
--                (`pair`, `revoke`, `pairings`, `register_handler`, `_authorized`), Invoke (`_params`,
--                `_require_peer_model_safety`, and the interface of the store), Conversation and Route
--                (the branches of `_invoke`), Handle (`_response`, `handle`, `delivery`), Turns
--                (`claim_turn`, `finish_turn`, `recover_interrupted_turns`), Mailbox
--                (`select_inbox_batch`), Steps (any sequence of these operations, by any processes)
--   Attention    attention.py: `_attention_put` (attention_put) and `record_conversation_event`, which the
--                bridge calls for each turn that changes
--   Store        store.py: State (the rows of each kind, and the interface of the mixins), Records (`_owner`,
--                `_principal`, `_belongs`, `_put`, `_audit`), Same (`==` of the rows), Requests
--                (`_contact_value`, the fingerprint of an approval, the checks of a resource), Prepare
--                (`_approval`, `register_resource`, `prepare_contact`), Tasks (`_references`,
--                `prepare_task`, `_task`, `_live`, `revoke`), Contacts (`resolve_contact`,
--                `contact_urn`), Verdicts (`_evaluate_current`, `_proposal_current`,
--                `_operation_view`), Wire and Actions (`prepare_action`), Current
--                (`_approval_current`, `_apply_approval`, `_deny_approval`), Confirm
--                (`begin_confirmation`, `confirmation_result`, `finish_confirmation`), Respond
--                (`_remote_respond_approval`, `_remote_add_contact`), Once (`remote_mutation`,
--                `execute_owner_once`), Reserve and Dispatch (`dispatch`). Spec holds the moves that rows
--                may make, with no code; the children named Moves, and Steps, tie the code to them.
--   Social       social.py: State (the rows, and the interface of the mixins beside it), Peers
--                (`_peer_blocked`, `_contact_status`, `_can_send_to`, `_sender_connection_state`), Outbox
--                (`_queue_social`, `_request_contact`, `_message_values`, `_send_message`,
--                `flush_social_outbox`), Inbox (`_message_visible`, `_mark_read`, `_ingest_social`,
--                `register_owner`), Respond (`_response_values`, `_respond_contact`), Block
--                (`_set_peer_block`, `consume_blocked_peer`), Mixin (the mixins of Store, with this one made
--                of these definitions: the branches of `_approval_current` and `_apply_approval`). Spec
--                holds the moves of its rows, with no code; Steps are the runs; Ask
--                (`_prepare_existing_contact`, `prepare_contact_response`, `prepare_message`,
--                `_message_view`), Remote (the branches of `remote_mutation` for the mixins, of which
--                peer_review.py's `_review_peer` is an argument). The children named Rows and Moves tie what
--                they write of the rows of store.py to the specification of the store
--   The modules named Tests (and Store.Fixture) run the definitions and apply the theorems to concrete values.
--
-- Conventions. An instant is the number of microseconds since 0001-01-01T00:00Z. A transaction reads
-- its clock once. A transaction of the bridge is one step, which SQLite's BEGIN IMMEDIATE provides.
-- A text is a sequence of scalar values, so lone surrogates do not occur. An expiry that does not
-- parse counts as past: `pair` stores only expiries that parse. The bridge has a store. The digits of a
-- time in a scope or an action are ASCII ones: Python's pattern lets other decimal digits pass, and then
-- its parser of dates refuses them, with another message.
-- A transaction of the store is a function from the database to an Outcome: `raised` is its rollback,
-- and a partial effect cannot be seen. The mixins of `Store` (social.py, attention.py, task_history.py,
-- source_context.py, peer_review.py, collaboration_v2.py, worker.py) are the record Store.State.Mixins: they
-- read the rows of store.py and keep a state of their own. The runs of Store.Steps are those of the
-- store with the mixin of social.py: the operations listed there, each method of `remote_mutation`,
-- the rows of `import_proposal`, and any change of the rows of other mixins. They leave out two writers
-- of the rows of store.py: collaboration_v2.py, which spends an action of a task itself before it sends an
-- event, and the migration of `__init__`. A set of identifiers is walked in sorted
-- order; tokens of `secrets` are arguments; the helper's answer to a message is a function of it, one
-- for each call of `dispatch`. Texts of validation faults are left out where the store passes them on.
-- The transaction of social.py in `flush_social_outbox` is one for each record; the helper's answer is
-- a function of the letter. A fresh token of `secrets` names no request that is there already. The
-- reason that a block writes into a denied operation is not kept, since nothing modelled reads it.
-- The recursions are structural; the only fuel is that of Prelude.Text.show, one round for each digit.
--
-- Not modelled: the SQLite connection, the locks and the transport of the bridge; the composition of
-- the task views (`_task_conversations`), which stands behind the store's interface; of store.py the
-- inbox (`ingest_message`, `sync_inbox`, `import_proposal`), the views (`state`, `inbox`) and the
-- migration that `__init__` runs, which may supersede an approval before the first operation; of
-- social.py presence (`refresh_presence`, `_contacts_view`), `_promote_pending_messages` (an argument)
-- and `_contact_requests`; and the other modules of the runtime (peer_review.py, the rest of
-- attention.py, attention_resume.py, task_history.py, collaboration_v2.py, worker.py, runtime.py,
-- daemon.py, ports.py, transport.py), the connectors, the tools and the Go code.
pub mod Prelude
pub mod Json
pub mod Policy
pub mod Identity
pub mod Table
pub mod Runtime
pub mod Remote
pub mod Attention
pub mod Store
pub mod Social
