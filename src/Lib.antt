-- ===== src/Lib.antt =====
-- Verification library of the massive workflow engine.
--
-- A workflow is a graph of steps, decisions, selects and maps. The compiler orders it, and the local
-- orchestrator runs its nodes in that order, retries failed attempts, expands maps into items, and
-- records every transition in the run journal, which readers accept only when it is consistent.
--
-- Base holds the shared helpers: Boolean tests, lists, bytes, string-keyed maps, fixed-width integers,
-- results and code that changes a state,
-- multiplicities of texts, and chains of checks that stop at the first error.
-- Canonical models the string order of internal/canonical/canonical.go (LessUTF16).
-- BuildSchedule of internal/plan/schedule.go (Kahn's algorithm with a sorted ready queue)
-- is in Plan/Schedule, over the graph records of internal/spec/spec.go. Its fuel is the number of nodes.
-- The order of a run, topologicalPlanOrder of internal/orchestrator/orchestrator.go, is in the
-- module Plan/PlanOrder, with the same fuel.
-- Journal models internal/runjournal: the records (Data), Parse over parameters for JSON decoding and
-- the schema validator, with the checks that it makes after its JSON schema (Read), Terminate, and the
-- journal writers mark* and failMapNode of internal/orchestrator/orchestrator.go (Marks for steps,
-- MapMarks for map items). The limits of the journal's schema, such as at most 100 attempts and
-- diagnostics that are not empty, are not modelled.
-- Retry models internal/orchestrator/retry.go: the policy of a contract and its delays with the
-- wrap-around of a 64-bit duration, and which outcomes are retried or kept by a collecting map.
-- MapExec models internal/mapexec/values.go: Expand, Collect and CollectOutcomes.
-- Runner models the attempt loop of Run in internal/orchestrator/orchestrator.go. Its fuel is one more
-- than the attempts of the policy. Runner/Inputs, Routes and Activation model the resolver of
-- internal/orchestrator/resolution.go: the input of a node, the case that a decision chooses, the
-- value of a select, and which nodes a run skips. Runner/Control models ResolveControlValue of
-- internal/orchestrator/control.go, and Runner/MapOutcomes mapOutcomesByIndex of orchestrator.go.
-- Runner/Gate models what the node loop of Run does with a node before a step or a map runs.
-- Store models internal/datastore. Keys has ParseKey and BlobKeySHA256Hex of datastore.go, over
-- path.Clean of Go's library (PathClean); Contract has the interface Datastore with the laws of
-- immutable objects that its clients rely on; Local has Put, Get and Open of the directory store of
-- local.go, in which each system call may fail, and LocalStore its view as such a store.
-- Params models internal/valueparam/valueparam.go over that interface: Codec has the references and
-- Encode, Decode and EncodePublished, Merge has DecodeMerge, Envelope the item envelopes of an Argo map
-- and its aggregate, Items has ExpandItems and DecodeItem, CollectItems has CollectResults and
-- CollectOutcomes. A read of a nil index is an error value of its own.
-- The JSON encoders and decoders are parameters, with the laws IsJson (RoundTrip) and IsEnvelopeJson
-- (ItemLaws).
-- Artifact models internal/artifact/runtime.go over the same interface: Identity has the validation of
-- producers, scopes and destinations and the manifest key, Publish PublishJSON and putImmutable,
-- Resolve ResolveJSON.
--
-- Outside the model, as parameters: Go's JSON packages, JSON schema validation, number formatting,
-- strings.ToValidUTF8, SHA-256, system calls, the S3 client, the step invoker (runner processes), timers and contexts. Not
-- modelled: observation callbacks (events), file and process handling, the Argo target, environments,
-- deployment, the control plane and the command line.
pub mod Base
pub mod Journal
pub mod Retry
pub mod Canonical
pub mod Plan
pub mod MapExec
pub mod Runner
pub mod Store
pub mod Params
pub mod Artifact
