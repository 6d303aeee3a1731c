-- ===== src/Lib.antt =====
-- A verification library of the bug bounty escrow: the services of the API that deploy escrows, move
-- funds, and keep programs, reports and payout wallets, the AI review of reports, the webhook and the
-- registration of wallets at the payment provider, the amounts that the services compute with, the
-- statuses of programs and reports, and the guards before them.
--
-- The parts and how they interact. An owner funds a program's escrow contract, researchers are
-- rewarded from it, and the owner withdraws what is left after the program has ended. The services
-- keep their rows in a database (EscrowRepository), ask the chain for evidence (ArcEscrowGateway) and
-- let a payment provider submit transactions (CircleContractsGateway). A service method is here a
-- function on the calls made so far: each call is recorded with its answer, and what the n-th call
-- answers is an environment over which every statement is quantified. So the database, the chain and
-- the provider may answer anything, also an exception, and a statement on the recorded calls holds for
-- every interleaving with other requests that shows in the answers.
--
-- - Effect: exceptions, calls, sessions and the actions; Effect/Triples: statements before and after an
--   action.
-- - Access: RolesGuard (apps/api/src/auth/roles.guard.ts) and requireOwner.
-- - Authentication: AuthenticationGuard (apps/api/src/auth/authentication.guard.ts), which gives a
--   request the principal that the services are called with.
-- - Settlement: RewardSettlementService (apps/api/src/escrow/reward-settlement.service.ts).
--   Service has the parts of `reconcile` (recover_approval, confirm_submitted, find_existing,
--   relay_payout), Service/Methods the methods create, current, observe (observeApproval), reconcile,
--   cancel, and serve for the routes; a part ends by a return or by going on with the row read anew.
-- - Withdrawal: the withdrawal methods of EscrowService (apps/api/src/escrow/escrow.service.ts).
--   Service has prepareWithdrawalCreation (ended_escrow, read_state, check_state) and create,
--   Service/Methods the other methods and serve.
-- - Funding: its funding methods. Service has createFundingIntent and the shared parts,
--   Service/Readiness evaluateGatewayFundingReadiness, Service/Deposits the source deposits,
--   Service/Reconciliation reconcileFunding, Service/Routes the routes, Service/Routes/Recovery
--   checkFundingRecovery, Service/Routes/Reads the reads that return no intent, Service/Serve the routes together and the webhook.
-- - Deployment: deployment of a program's escrow. Service has deploy (round and submit_loop are its
--   `while (true)`) and getDeployment, Service/Fees the wallet challenge and the fee quotes.
-- - Ai: packages/ai/src. Schema has the schemas of contracts.ts, Worker the AiReviewWorker of
--   orchestrator.ts (run_once, drain; Worker/Calls says which calls may follow which), Http
--   requestJson of http.ts.
-- - Rewards: RewardService (apps/api/src/rewards/reward.service.ts), with the verification of payout
--   wallets. Pagination: its paginationMetadata, which the lists of programs and reports compute too.
-- - Reports: ReportService (apps/api/src/reports/report.service.ts); Reports/Hash: reportContentHash.
-- - Programs: ProgramService (apps/api/src/programs/program.service.ts).
-- - Subscription: GatewaySubscriptionLifecycleService
--   (apps/api/src/escrow/gateway-subscription-lifecycle.service.ts), which registers the source wallets
--   that Funding asks for before a deposit; `poll` is its `while (Date.now() < deadline)`.
--   Client: the CircleGatewaySubscriptionClient that it calls (circle-gateway-subscription.client.ts).
-- - Webhook: CircleGatewayWebhookVerifier and CircleGatewayWebhookController
--   (apps/api/src/escrow/circle-gateway-webhook.verifier.ts and circle-gateway-webhook.controller.ts),
--   which hand signed tests to Subscription and deposits to the `ingest` of Funding.
-- - Usdc: parseUsdcBaseUnits and formatUsdcBaseUnits (packages/shared/src/contracts/escrow.ts).
-- - Domain: packages/domain/src/statuses.ts and transitions.ts.
-- - RateLimit: RateLimitGuard (apps/api/src/common/guards/rate-limit.guard.ts).
-- - Prelude: shared names, Boolean tests, lists and texts.
--
-- Bounds. A `bigint` is a natural number without a bound, and the bounds that the code tests are
-- written out. `batches` and `digits` count rounds: there are at most as many batches as events, and
-- a number has at most as many digits as its value plus one says, so no round is missing.
-- `submit_loop` has fuel for four rounds, which Deployment/Service/Rounds is about, and `poll_for` has
-- fuel for two rounds more than its time has pauses, which Subscription/Service/Rounds is about.
--
-- Not modelled: the projections of rows to responses, messages of exceptions beside their codes,
-- logging, validation of request bodies by schemas, the adapters of the chain and of transactions, the
-- SQL of the database, the contracts, the web application, and the adapters of the AI providers. Calls
-- that the code makes at once by `Promise.all` are made here in their order.
mod Prelude
pub mod Effect
pub mod Access
pub mod Settlement
pub mod Withdrawal
pub mod Funding
pub mod Usdc
pub mod Domain
pub mod RateLimit
pub mod Deployment
pub mod Ai
pub mod Rewards
pub mod Reports
pub mod Programs
pub mod Pagination
pub mod Subscription
pub mod Authentication
pub mod Webhook
