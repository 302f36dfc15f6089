-- ===== src/Lib.antt =====
-- The part of the trading platform that decides whether, and how often, money moves: the durable
-- runtime of src/atp/runtime, the rows of src/atp/store/base.py that it rests on, and the path of
-- an order through the risk engine, the execution engine and the broker.
--
-- The program's parts and the files that model them:
--   Runtime/Status     the states of RuntimeStatus (src/atp/runtime/lifecycle.py)
--   Runtime/Durable    the rows of the store and its transactions on them: transition, audit,
--                      set_kill_switch (src/atp/store/base.py); Canary has the prepare and the
--                      disable of the paper canary, Races several processes that commit
--                      transactions in any order, Bindings the paper columns of the status, Daily
--                      the daily P&L, its lock and the reservation of risk budget
--   Runtime/Lifecycle  LifecycleManager, method by method (src/atp/runtime/lifecycle.py); Crash has
--                      restart and recovery, Latch the histories of calls after a kill, Entry the
--                      ways into RUNNING and out of RECOVERY_REQUIRED
--   Runtime/Gate       TradingGate and the enforcement of the daily loss (src/atp/runtime/gate.py);
--                      Locked has the calls that follow it
--   Runtime/Positions  positions from fills, and the reconciliation with the broker
--                      (src/atp/runtime/positions.py)
--   Runtime/OrderStore the order, fill and position tables with their transactions
--                      (src/atp/store/base.py)
--   Runtime/Orders     OrderManager.place (src/atp/runtime/orders.py); Invariant, Restarts,
--                      ExactlyOnce and Completion have its runs
--   Paper/Runs         the status of a run of the paper canary (src/atp/store/base.py); Slot has its
--                      histories
--   Paper/Orders       the state of an order of it and its event log (src/atp/store/base.py); Log has
--                      the walks, Final the final states
--   Paper/Intents      get_or_create_paper_intent, and in Once the intent that is asked for twice
--   Paper/Opening      create_paper_run, and in Fresh the books of a new run
--   Paper/Cancel       cancel_paper_nonterminal_orders; Listed has the orders that it reads, Drained
--                      what it leaves
--   Paper/Money, Config, Tables, Risk
--                      exact amounts, _paper_config, the tables of a fill, and
--                      _paper_risk_checksum_in_tx with the risk capital
--   Paper/Fill         commit_paper_fill_atomic in the order of its statements: Request has the checks
--                      of the arguments and the answer to a repeated fill, Admit the runtime, run,
--                      order, configuration and risk, Market the day's rows and the times, Project the
--                      account and position with the caps and loss limits, Write the rows
--   Paper/Commit, Stages, Admission, Course
--                      what each stage of a commit that succeeds has returned; Keys has the reads of
--                      a row that is written. The laws of a commit are in Books, Replay and
--                      Refinement, Retry, Guards, Limits and Losses
--   Governance/Registry    the switch of each strategy (src/atp/governance/registry.py); Switch has the
--                          histories of calls
--   Governance/Versioning  the lifecycle of models and the ledger of promotions
--                          (src/atp/governance/versioning.py), in Lifecycle and Ledger
--   Governance/Decay       the monitor that takes failing strategies off (src/atp/governance/decay.py)
--   Trading/Risk           RiskEngine (src/atp/risk/engine.py); Check has check_order, Admissible its
--                          controls, Latch the histories of calls
--   Trading/Broker, PaperBroker
--                          the data of src/atp/brokers/base.py, and PaperBroker
--                          (src/atp/brokers/paper.py) with its fills in Place; Replay has the books
--                          against the fills reported
--   Trading/Reconciler     src/atp/brokers/reconcile.py; Agreement has when a report is consistent
--   Trading/Execution      the engine of src/atp/execution/engine.py; Submit has submit with its
--                          leases, and under it Frames, Controlled, Stopped and Transparent what
--                          reaches the broker
--   Trading/Scheduler      src/atp/execution/scheduler.py, with its ticks in Ticks; Drained has their end
--   Autopilot          the policy and the loop of the development autopilot (src/atp/autopilot/policy.py,
--                      orchestrator.py and models.py); Rounds has what an iteration leaves, Vetted
--                      how a run ends
--   Common             Boolean tests, whole numbers and dictionaries; Tests has concrete runs.
--
-- State and effects. A method of the store is one transaction: a function from a world (the rows,
-- the clock, the identifiers drawn) to a result and a new world. What a transaction wrote stays
-- written when a later statement raises; a raise inside one leaves every row as it was. In the
-- order lifecycle an action is also given a number of effects that its process lives to make; an
-- effect is a committed transaction or a call of the broker, and the process dies before the next
-- one. The longest path of place makes four: the intent, the authorization, the submission and the
-- fill.
--
-- Numbers. Money is a whole number of units of 10^-8, the precision that the store keeps; a product
-- of two is a whole number of units of 10^-16, a capital times a percentage over 100 one of 10^-18.
-- Sums, differences and products are exact, which Decimal's are while they fit its 28 digits. The
-- quotient in the average price of Runtime/Positions is rounded by Decimal, so the division is an
-- argument, and where a law needs the average to be exact it says so. A fill of the paper canary is
-- refused where an amount, an average price with them, is not a multiple of 10^-8. A product of
-- three amounts is a whole number of units of 10^-24. Prices and commissions are rounded half to
-- even.
--
-- Times in Paper are microseconds, a day is the whole number of days in them, and a stored text
-- that is no timestamp is a stamp of its own. A transaction that raises gives no tables, since it
-- is rolled back. The locks of a commit make it a function of the tables; its two clock readings
-- are arguments, and so two transactions follow one another in either order.
--
-- The path of an order. An object that Python compares by identity, an order or an authority,
-- carries a number. A task is a number too, or none. The guard of the engine answers to its n-th
-- call, and between the calls of one submission no other task writes to the broker. A decision has
-- the control that it names as a constructor; how it reads is an argument. The plan of an algorithm
-- is an argument of the engine, which checks it. The values are numbers where a type says so, so
-- the tests of Python for a value of another type have no counterpart.
--
-- Outside the files: git, the models and the checks of the autopilot are a record of what they
-- answer on a worktree, which may be anything, or the exception that they raise. The broker of the order lifecycle is a record of a
-- submission and a count of executions, whose laws say that submitting an order again executes
-- nothing more; the recovery checks and the risk verdict are arguments. The governance compares
-- floating-point numbers, which are an argument too, with their comparisons, and no law of them is
-- used. So does the path of an order: the record Floats has the operations that the code uses, and
-- a law of them is asked for where a statement says so. An identifier of new_id is a number not
-- drawn before.
--
-- The prepare and the disable of the paper canary are transactions on the runtime rows. What they
-- read of other rows is in their request as a Boolean: an active run, the checksum and the starting
-- cash against the Risk Control row, the budget of the day, the market data. The row of the day's
-- paper losses, which the prepare adds where it is missing, is not among the runtime rows.
--
-- The reservation of risk budget is one step, as the row lock of PostgreSQL makes it. SQLite takes no
-- lock for its read, and there two reservations may overlap. The identifier of an event of a paper
-- order is its primary key: where it is taken the insert fails, and the transaction with it.
--
-- Not modelled: the reconciliation rows and the service of the canary; the slicing algorithm, the live brokers, the guard and the
-- file edits of the autopilot, the ingestion of market data, the services and the dashboard.
-- Binding a guard is taken as done. The types of Python's arguments are not checked again where a
-- type says so. The tables of a fill have functions of a key, the tables of Orders, Intents and
-- Cancel a list of rows: no law goes from one to the other. JSON, hashes, str.strip and the order
-- of texts in the database are arguments.
--
-- Calls of place follow one another: two processes that place the same order at the same time are
-- not modelled. The date of a day is an argument where the code reads the clock, and a timestamp is
-- a number. Log lines and the other read models of the store are left out.
pub mod Common
pub mod Runtime
pub mod Paper
pub mod Governance
pub mod Tests
pub mod Trading
pub mod Autopilot
