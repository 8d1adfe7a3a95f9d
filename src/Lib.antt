-- ===== src/Lib.antt =====
-- Verification library of Platform_RTE, the runtime environment of a redundant railway platform: the
-- parts that decide which replica is ONLINE, compare what replicas compute, notice that one hangs, and
-- bring the platform into a safe state.
--
-- The parts and the files that model them (paths from the root of the repository):
--   Platform/Status      include/rte/utils/status/rte_status.h: the status codes.
--   Platform/Safestate   src/utils/safestate/rte_safestate.c: levels, handlers, rte_safestate_enter.
--   Platform/Lifecycle   src/utils/lifecycle/rte_lifecycle.c: the lock that ends the setup phase, which
--                        the setup functions of the services ask.
--   Platform/Violation   src/utils/safestate/rte_safety_violation.c: the handler of violations.
--   Cast                 src/utils/cast/rte_cast.c: the checked conversions, by a table of their tests, and
--                        the checked arithmetic. Proofs in Ranges.
--   Channel              src/redundancy/channel_link/rte_channel.c: one link over the callbacks of the
--                        integrator, with counters and health.
--   Voter                src/redundancy/voter/rte_voter.c: m-out-of-n votes over channels or buffers.
--                        Grouping has voter_group_matching_responses; Vote the setup, the reaction and
--                        rte_voter_vote_buffers; Receive the rounds rte_voter_send and _receive.
--                        Queries the look-ups. Readings says what the channels of a round give; Classes,
--                        Majority, Masking, Reaction and Rounds hold the other proofs.
--   Comparator           src/redundancy/cross_comparator/rte_cross_comparator.c: the 2-out-of-2
--                        comparison, on the channels and the reaction of the voter. Proofs in Fate, and
--                        in AsVoter on its relation to the voter.
--   SiteRole/Policy      src/redundancy/site_role/rte_site_role_policy.c: rte_site_role_decide, the
--                        decision of one cycle. Proofs in Safety and Tiebreak.
--   SiteRole             src/redundancy/site_role/rte_site_role.c: the service that gathers the facts of
--                        the decision and carries it out. Types has its state, Role the changes of role,
--                        Sibling the A/B sibling, Takeover the dispatcher's confirmations and tokens,
--                        Frames and Link what passes between the sites, Cycle the public calls, over
--                        the policy, the negotiator and the byte order of Buffer. Proofs below Takeover,
--                        Frames and Cycle.
--   Dual/Negotiator      src/redundancy/dual/rte_dual_negotiator.c: two sites that exchange state frames.
--                        Proofs in SplitBrain (any run of both sites) and Decision (one round).
--   Election             src/redundancy/election/rte_election.c: the winner among up to five replicas.
--   Watchdog             src/redundancy/watchdog/rte_watchdog.c: a pool of eight watchdogs. Ticks has
--                        the tick and the timeout handler; Supervision, Kicks and Pool the proofs.
--   Checksum             src/redundancy/checksum/rte_checksum.c: CRC-64 by tables (Tables) and vital
--                        messages (Messages). Proofs in Bitwise, Detection and Messages/Delivery.
--   Buffer               src/utils/buffer/rte_buffer.c: integers in a byte buffer, in either order.
--   StateTransfer        src/redundancy/state_transfer/rte_state_transfer.c: the fields that a promotion
--                        carries over, their encoding and, in RoundTrip, that it is undone.
--   Checkpoint           src/redundancy/checkpoint/rte_checkpoint.c: the rendezvous of channels in a bounded
--                        time, in Rounds, over the channels, vital messages, buffer and watchdogs. Proofs in
--                        Confirm (messages), Fate (how it ends) and Bounded (how long it waits);
--                        Receipts, Managers, Answers and Tries lead to Fate.
--   AppManager           src/app/appmanager/rte_appmanager.c: the life cycle of an application. Cycle has
--                        the stages of a cycle and the loop over them, Run rte_appmanager_run. Synchronized
--                        puts the rendezvous of Checkpoint in. Proofs in Limits (counters and ends) and
--                        Commits (the hook for the outcome of a checkpoint).
--   Setup                The operations of all parts that ask the setup-phase lock, after it is set.
--   Prelude              Boolean tests, lists as arrays, machine words, and the laws of exclusive or
--                        and of disjoint disjunction at all widths.
--
-- Conventions. A function of the source is a function of the model, with the statics and the storage
-- that it changes as an argument and a result. What it does outwards is a list of events, in order: a
-- log line, a safe-state handler, a callback of the application. The texts of log lines are kept where
-- they tell two calls apart; file and line are not. A call from which control may not come back (a safe
-- state other than DEGRADED) gives an `Outcome` with no result, or a Boolean that says so. Unsigned
-- integers are natural numbers that are reduced where the source can wrap. A NULL argument is `none`
-- where it matters; where it only returns INVALID_PARAM, a file says that it is left out.
--
-- Loops are recursions on the list that they run over: the channels, slots, candidates, bytes or frames.
-- The two loops of a start of the site-role service wait for a counterpart: they take fuel, and fuel above
-- the start-up time is enough (SiteRole/Cycle/Startup). The loop of an application takes fuel too, of which
-- max_iterations is enough, or the error threshold if the application always fails (AppManager/Limits). No
-- other definition needs fuel. The bounds of the source (8 channels, 256 bytes, 8 watchdogs, 5 replicas, 248
-- bytes of payload, 64 rounds of a rendezvous) are constants of the model.
--
-- What is outside the repository is a parameter: the transport of a channel (its callbacks act on a
-- world of their own, in which a theorem may ask for a log or a time), a custom comparison (a theorem says what it has to satisfy), the clock (each
-- reading is an argument), and the layout of integers in memory. The custom action of a watchdog and
-- the callback of a disagreement are events; they are taken not to call back into the module.
--
-- Not modelled: the dual channel below the negotiator (its calls are what they deliver), the safe channel,
-- the configuration and strings; the services of the operating-system layer, which only forward to an
-- adapter of the integrator; tests and examples.
pub mod Prelude
pub mod Platform
pub mod SiteRole
pub mod Dual
pub mod Election
pub mod Channel
pub mod Voter
pub mod Comparator
pub mod Checksum
pub mod Buffer
pub mod AppManager
pub mod Cast
pub mod Checkpoint
pub mod StateTransfer
pub mod Setup
pub mod Watchdog
