-- ===== src/Lib.antt =====
-- The rules and effects of MALIGN-AI: a verification library for the game's rule kernel and engine.
--
-- The program is a monorepo. packages/rules is a kernel of pure functions. packages/game-engine
-- keeps the game's state, whose types packages/domain declares, and changes it by commands: m2b.ts
-- holds the handlers of the card effects and the regime abilities, and the dispatcher that runs a
-- handler on a copy of the state; m2b-reaction.ts opens the windows in which others react to an
-- action, and discards cards and campaigns by the functions of m2b.ts.
--
-- Files, and the code that they model:
--   * Base: booleans, lists, integers, dictionaries, failing calls, JavaScript numbers and strings.
--     A JavaScript object is a list of entries with their keys, in the order of insertion; its keys
--     are distinct, which theorems that need it state as `HasUniqueKeys`. A JavaScript number that
--     the code may get from outside is a `Number`, an integer or not one; integers are unbounded,
--     while the program's are exact up to 2 ^ 53.
--   * Rules: packages/rules/src, one module for each file.
--   * Effects.Types: packages/domain/src/m2b.ts. A handler's mutation of its draft is a function from
--     state to state; `return error` is `err (rejected e)` and an exception is `err (thrown x)`.
--   * Effects.Parameters, Cards, Influence, Resources, Regime, Legitimacy, Registry, Handlers and
--     Dispatch: packages/game-engine/src/m2b.ts, by what the functions act on; Registry also holds
--     m2-effect-manifest.ts. The handlers of `handlers` are functions of the same names, and
--     `M2BEffectDispatcher.dispatch` is `dispatch`, on the table `definitions`.
--   * Effects.Scheduler: `runM2BScheduler`, whose caller's `execute` is a parameter that keeps a state
--     of its own, and `playStarter`, both of m2b.ts.
--   * Reactions.Window and Play: packages/game-engine/src/m2b-reaction.ts over the types of
--     packages/domain/src/m2b-reaction.ts. `playReaction` is `play_reaction`: its early returns are
--     the list `play_checks`, and its result holds the state and the window as they are left.
--     Reactions.Veto has `resolveVeto` and `applyVeto`.
--   * Endgame: packages/game-engine/src/m2b-endgame.ts. Winners has `determineWinners` and `endTurn`,
--     Objectives `evaluateObjectives`, whose countries are functions of their own, and Final
--     `finalizeGame`.
--   * Commands.Contract: packages/contracts/src/index.ts. Commands.Atomic: `dispatchAtomicCommand` of
--     packages/game-engine/src/atomic-dispatch.ts, over any store, with `Memory` for the store in
--     memory. Laws states what a store promises; Refinement reads a dispatch as a step of a ledger.
--   * Commands.Model, Payload, Plan, Campaigns and Dispatcher: packages/game-engine/src/model.ts and
--     dispatcher.ts. A command's type and its payload are independent, as in the source, and Payload
--     reads the payload's fields. `reduce` returns the state that the source leaves in its draft, refuses with a
--     code or throws; the modules below Dispatcher prove what it keeps.
--   * Cleanup: packages/game-engine/src/m2b-lifecycle.ts over packages/domain/src/m2b-lifecycle.ts.
--     Aging has `cleanupCampaignAging` and `resetTurnFlags`, Viral the origins and their resolution,
--     Continuation the steps; Rows, Origins, Spread and Completion prove the properties.
--   * Sessions: packages/authz/src. Registry is `ProductiveSessionRegistry`, Authority is
--     `InMemorySessionAuthority`; Revocation, Access and Exclusion prove the properties.
--   * Effects.Ends, Wealth, Moves and Steps: how a handler's body ends, and what its steps preserve;
--     the modules below Handlers, Regime, Influence, Dispatch, Legitimacy and
--     Scheduler, Reactions.Turns and Atomicity, and Endgame.Winners.Ranking prove the properties.
--
-- Recursion is structural everywhere but in `decimal`, the decimal digits of a number, which runs on
-- one round more than the number, while each round divides it by ten.
--
-- A `Record<string, V>` is modelled by its own keys. A lookup of the source also finds the members of
-- `Object.prototype`, by names such as `constructor`; ids with such a name are outside of the model, and
-- where the source may throw for them, the theorem asks that there are none (Effects.Names, and
-- `IsReadable` of Commands.Dispatcher). A payload is a member of its union without further fields.
--
-- The text that identifies a command's content, `deterministicJsonSerialize` of its type, version and
-- payload, is a parameter, as is the floating-point order of a sum of action points that is no integer.
-- The comparison `localeCompare` is a parameter, the order of the host's language. The comparison of
-- `sort` is that of the strings' characters, which is the host's for identifiers of ASCII characters.
-- Not modelled are the texts of error messages, the handlers `PAIR_BONUS` and `RESOURCE_GAIN`, which
-- no definition names, narratives and the projections, the setup, planning and
-- adjudication of a game, persistence, the server and the web client.
pub mod Base
pub mod Rules
pub mod Effects
pub mod Reactions
pub mod Endgame
pub mod Cleanup
pub mod Commands
pub mod Sessions
