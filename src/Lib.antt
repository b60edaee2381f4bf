-- ===== src/Lib.antt =====
-- GhostBusters looks at a Terraform change, collects evidence about the resource, decides on a safe cost
-- remediation, and lets a human review the decision before a pull request is made. Besides, it hunts for
-- forgotten cloud resources, follows up on remediations, and has its own accounts and organizations. This
-- library models the services that decide, the workflow around them, the hunt, the follow-up and the
-- accounts, and proves what they promise.
--
-- How the parts interact. core/investigator.py runs the evidence tools of a plan through core/retry.py.
-- core/reasoning_engine.py turns evidence into a decision: core/conflict_detector.py finds conflicts,
-- core/alternative_generator.py proposes actions, the engine selects one, core/verifier.py checks it,
-- core/policy_engine.py or, through core/conftest_policy.py, the Conftest process decides on it, and
-- core/confidence.py scores it. core/workflow_service.py keeps a run in core/run_store.py, checks reviews
-- by core/human_review.py, writes core/audit.py's trail, decides again when evidence or context arrives,
-- and ends an approval in core/mock_pr.py or integrations/remediation_pr_service.py. A remediation that is
-- carried out is followed up by core/outcome_verification.py. core/cloud_hunt_service.py scores the resources
-- of an inventory by core/cloud_candidates.py and opens a review case for each candidate. app/main.py takes
-- the principal of a request from a session of app/auth.py, which also keeps the members of organizations.
--
-- Files. Prelude and its children hold what the modules share: tests on native numbers, lists, texts, JSON
-- values, integers and fractions. Model has the records of app/models.py. EvidenceUtils, ConflictDetector,
-- AlternativeGenerator, PolicyEngine, Verifier, Confidence, ConftestPolicy, ReasoningEngine, Retry,
-- Investigator, Audit, HumanReview, MockPr, RunStore and RemediationPr each model the file of that name,
-- function by function under the source's names. Workflow.Trail, Workflow.Decide, Workflow.Actions and
-- Workflow.Review model core/workflow_service.py: its audit helpers, _resource_for_run and
-- _recalculate_decision, the handlers of the review actions, and review_run with cancel_goal. Result has
-- the exceptions as values. Accounts models app/auth.py: its entities, names, permissions and events,
-- registration and login, invitations, members, and sessions with the CSRF check; Accounts.Commands has its
-- calls as steps of the store. Hunts models core/cloud_candidates.py (Candidates) and
-- core/cloud_hunt_service.py (Cases, Decisions, Scan), and Outcomes core/outcome_verification.py. The other
-- children of a module prove things of it, and Tests applies the theorems to concrete inputs.
--
-- Conventions. A UUID or a timestamp is a number. A price, a percentage or a reliability is an integer of
-- ten-thousandths, and a confidence, a duration or a delay a fraction, where the program has floating
-- point; half of a saving is rounded down, and two printed digits are rounded half up. A handler works on
-- a copy of the run, so an exception leaves no change. One call of a handler has one time. The loops recurse
-- on their lists; the loop of the retry executor recurses on the number of attempts that are left, which
-- starts as the configured maximum, so no fuel can run out. The calls of app/auth.py may change the store and
-- raise after that, so the store stands beside their answer. A dict is a list of entries in insertion order.
-- A regular expression is the scanner that accepts the same texts, and texts are ASCII.
--
-- Parameters. The Conftest process, GitHub with the regular expression that rewrites a file, the answers of
-- the evidence tools at each attempt with their durations and cancellations, the random number of a delay,
-- the scenario files and Terraform plans by the resource they describe, the settings that allow a real pull
-- request, the providers of an inventory and whether their calls raise, the digest of a request, and the
-- hashes, tokens, clock and time zones of the accounts. Nothing is assumed of them, but that the password
-- check accepts a password against its own hash where a login is to succeed, and that no call raises where
-- a hunt is to end with its report.
--
-- Not modelled: the AI planner and explanation, the questions of a plan, the details and explanations that
-- are only shown, the bodies of pull requests, elapsed times that are only recorded, the start of runs and
-- connected goals, the listing of invitations and the demo workspace, the schedules of hunts, the views and
-- the breakdown by provider of a hunt, the snapshot files, the SQL and Redis stores, and the other HTTP routes.
mod Prelude
mod Tests
pub mod Model
pub mod EvidenceUtils
pub mod ConflictDetector
pub mod AlternativeGenerator
pub mod PolicyEngine
pub mod Verifier
pub mod Confidence
pub mod ConftestPolicy
pub mod ReasoningEngine
pub mod Result
pub mod Audit
pub mod HumanReview
pub mod MockPr
pub mod RunStore
pub mod Retry
pub mod Investigator
pub mod RemediationPr
pub mod Workflow
pub mod Accounts
pub mod Hunts
pub mod Outcomes
