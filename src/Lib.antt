-- ===== src/Lib.antt =====
-- Verification of the strategy engine: a service that evaluates the `ema_pullback` strategy on market
-- bars. Its raw specification names components (direction, blockers, setups, trigger, risk, exits,
-- management); the engine plans their features, evaluates them over a frame of bars into masks and
-- traces, and projects entries and the management of open trades from them.
--
-- The parts modelled, with the code's files below src/strategy_engine/strategies/ema_pullback/:
--
-- Episode (stack_episode.py): the projection of the EMA stack's episodes, `_project_long` and
--   `project_side`, and the read of an entity operand with an integer index. Data has the machine and
--   the touch rows, Wave, Touches and Step the operations of a bar, Side the short side as the mirrored long
--   one, Operand the gather. The proofs: Reads and Causality (what a bar depends on), Invariant,
--   Frame, Sound and Pass (the machine's invariant and the touch table), Lookup and Operand (which row an
--   operand reads), Rows (every row of the table).
-- Managed (managed.py): the replay of the management rules over the bars of one open trade. Data has
--   the state, rules, events and decisions; Phases has `_update_extremes`, `_phase_met`,
--   `_fold_composite_rules`, `_composite_phase_met` and the phase rules; Stops the stop, take and runtime rules; Replay the loop and
--   `evaluate_start_after_entry_managed_projection`. The proofs: Advance (one step), Tighten (steps
--   in a row and a bar), Course (the decisions), Whole (a calculation), Stop (the desired stop),
--   Atoms, Children, Folded, Returns and Supported (the rules on which it returns).
-- Bounce (setups.py): the setup `_ema_bounce_counter`. Step has the parameters, the signals and the
--   loop; Invariant the counter and its rows, Window a bounce from its start to its end.
-- Entry: from the context records to the entries of the sides and their events. Masks has `_direction`
--   (direction_blockers.py), the conjunctions of masks, and the reclaim and touch triggers (triggers.py);
--   Trigger has `evaluate_triggers`; Gates the gates that blockers and setups declare, their records
--   (context_consumption.py) and `_gate_for`; Components what each blocker and setup computes; Sides the
--   layers of the sides and their composition in `evaluate_ema_pullback_frame` (evaluation.py), without
--   the memo of the evaluation context; Static the checks of static_semantics.py on this part of a
--   specification. Events has `build_decision_events` of
--   src/strategy_engine/strategies/decision_events.py. The proofs: Reclaim (when the trigger fires),
--   Lookup and Evidence (each item finds its gate), Chain, Steps and Allowed (the layers), Whole and Returns
--   (the entries), Exclusive and Both (one side at a time).
-- Unique (raw_spec_identity.py): the check of the instance ids of a list of items.
-- Composite (composite_spec.py, managed_composite.py, setups.py): `any of paths` conditions. Spec has the
--   structure rules of the parser, Fold the fold of a phase condition over its market children and
--   `composite_met`, Setup the paths of `_composite_core`; Meaning says when a path holds. The
--   proofs: Valid (what the parser accepts), Naive (the fold), Core (the setup).
-- Predicate (predicates.py, live_calculation_requirements.py): Evaluate has the masks of conditions,
--   states and temporal windows; Window what the cumulative sums count; History the history
--   requirement of a predicate and that it is enough.
-- Market (src/strategy_engine/domain/ranges.py and market.py): Timeframe has the texts and their
--   durations, Frame the checks of ranges and frames. The proofs: Canonical (texts that have a
--   duration), Grid (which frames are accepted).
-- Live (src/strategy_engine/strategies/live_calculation/plan_window.py): Window has the planner of the
--   first bar that a live calculation loads, Multiple `math.lcm`. The proofs: Rounding, Resolved and
--   Aligned (the planned start).
-- Potential (potential_entries.py): Project has the prices of the entries that a touch would open, for
--   the sides with a setup and a trigger; Prices and Sides are the proofs.
-- Blocker (direction_blockers.py): Trend has the trend strength blocker on its series, and Peak says
--   when it lets a bar through; Rsi has the RSI blocker.
-- Context (contexts.py, context_consumption.py): Gate has the states of a context and the record of a
--   gate, Bundle the contexts of the declared providers; Agree and Bundle say that a gate agrees with a
--   state predicate.
-- Untouched (setups.py): Setup has `_untouched_anchor`; Meaning says which bars it allows.
-- Width (setups.py, raw_spec_identity.py): Setup has `_anchor_stack_width` and its prefix, Window says
--   which bars it allows; Band has `_anchor_stack_width_band` and its parser, Inside
--   which bars it allows.
-- Extreme (window_extreme.py): Table has the sparse table, Lattice the order of an extreme, Window what
--   a query returns.
-- Exit (exits.py, raw_spec_identity.py): Rules has the heads, signals and distances of the exit rules,
--   Policy `evaluate_exit_policy`, without the memo of the evaluation context. The proofs: Confirm
--   (the signals on averages), Found and Value (the maps by instance id), Aggregate, InForce and Whole
--   (the levels on each bar).
-- Vote (setups.py, weighted_vote_spec.py): Score has the weighted vote on integer weights; Meaning says
--   when it lets a bar through.
-- Identity (src/strategy_engine/domain/node_identity.py): Canonical has `canonical` and Python's `==` on
--   its results; Node has `node_spec`. Injective says which parameters share a canonical form, Order
--   that one of two texts comes first, Members what a frozen set keeps,
--   and Lookup what an identity gives back.
-- Memo (src/strategy_engine/indicators/evaluation_context.py, and evaluate_range_batch.py of
--   src/strategy_engine/strategies/application/): Failure has the failure records, Counts and State
--   the reference counts and the memo, Batch the loop over the variants of a batch. An evaluation is a
--   tree of the nodes that it consumes; deep copies and the constructors of exceptions are
--   parameters. The proofs: Refine and Stream (a batch against direct evaluation), Induct, Balance,
--   Retain, Once, Cleared and Finish (the counts, and the context at the end).
--
-- Shared: Result has the errors of src/strategy_engine/domain/errors.py and the results of code that
-- raises; an exception is an `err` value, and code after it does not run. Json has the values of a
-- request body. Trade has the sides of a trade. Prelude has the tests and list helpers.
--
-- Conventions. A floating-point number is a value of any type with the operations of `Float`; what
-- a proof needs of the comparisons is the record `IsOrdered`, which NaN satisfies, and Float/Grid
-- has an instance of whole ticks. The numpy calls of the projection are the record `Numpy` with
-- the laws `IsNumpy`, and Numpy/Reference has an instance; `np.cumsum` is a parameter with
-- `IsCumsum`, and the calls of the sparse table are `Calls` with `IsCalls`, and the rolling
-- maximum and minimum of pandas and its minimum of a row are parameters with `IsRollingMax`,
-- `IsRollingMin` and `IsRowMin` (Pandas). A sum of votes is an `int64` that wraps around. A series of a frame is a function
-- of the bar, with `none` for a value that is not ready. Loops over bars recurse on the number of
-- bars, loops over rules on the list, so there is no fuel.
--
-- Managed rules arrive parsed: a phase name or a component is a constructor, `unsupported` is any
-- other one and raises where the code raises, and a rule holds the series that the plan has for
-- it. A composite condition arrives folded, or as the error of its parser or fold. Decimals
-- are a parameter with the conversions that the code makes. The component ids and the diagnostics
-- of an event are not modelled, nor the wire texts.
--
-- Not modelled: the other parsers of the specification, the indicators (pandas and numpy code),
-- the operands of predicates and the history that interval operands and forming candles add, votes
-- with exponents or linear ladders, frozen sets as parameters of node identities, the prediction of
-- a variant's nodes, the identities of the strategy's nodes, the feature plan, historical
-- projections, HTTP, market data and the wiring of the service. Integers are unbounded where the
-- code hands them to `int()` of a text, which refuses more than 4300 digits, or to a lookback in
-- numpy, which has 64 bits.
pub mod Composite
pub mod Predicate
pub mod Entry
pub mod Bounce
pub mod Managed
pub mod Market
pub mod Memo
pub mod Exit
pub mod Vote
pub mod Identity
pub mod Trade
pub mod Context
pub mod Pandas
pub mod Untouched
pub mod Unique
pub mod Width
pub mod Potential
pub mod Extreme
pub mod Blocker
pub mod Live
pub mod Prelude
pub mod Float
pub mod Numpy
pub mod Result
pub mod Json
pub mod Episode
