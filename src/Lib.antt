-- ===== src/Lib.antt =====
-- The workforce of agents: the board that hands cards to runs, the reactor that starts them, the
-- broker that alone acts on its units, and the memory of incidents.
--
-- How the parts interact. A card is a folder with a ledger of events; the decisions on it stand in
-- the broker's stream, apart from it. bin/board.py derives a card's column and what it wants from
-- the two, from the receipts of its runs and from canonical main, and its verbs append to the
-- ledger. A run's receipt, of bin/workflow_receipt.py, is validated as a whole, and may be amended
-- by the sweep and closed by a review. bin/board_plan.py reads the derived views, the active units
-- and the reactor's memory, and plans what to start, stop, hold, trash, restore and purge.
-- bin/board_reactor.py runs one pass after another: it counts the day's runs, settles its memory,
-- asks for a plan, applies the actions one by one and remembers what became of each.
-- bin/control_broker.py takes one request per connection from the control room. A request for an
-- action is validated, its peer looked at, its entry found in the allowlist; under a lock the units
-- are looked at, the preconditions checked, the steps taken and the units looked at again, and
-- whatever came of it is a receipt. A decision on a card is validated, signed and appended to the
-- stream of decisions, which is the one that bin/board.py reads.
-- bin/incident_state.py keeps what the sweeps over the fleet have found from one sweep to the
-- next, and says what is to be announced.
--
-- Which file models which part.
--   Prelude       the lists, dictionaries, texts and tests that the others share.
--   Receipt       bin/workflow_receipt.py: `validate`, and in Amend `close`, `sweep_pending` and `amend`;
--                 Closing and Sweeping are about them.
--   Stamp         bin/workflow_receipt.py, `iso_utc` and `parse_time`.
--   Dates         `date.fromisoformat` and `datetime.fromisoformat`, as bin/board.py calls them.
--   Incident      bin/incident_state.py: `Entry`, `reconcile`, `prune`, `digest_due`. Reconcile has the
--                 meaning of one sweep for one key, Sweeps of many, Digest of pruning and the digest.
--                 Notify has bin/incident_notify.py, `send_opens` and `send_recoveries`.
--   Source        bin/reactor_source.py: budgets, actions, plans and outcomes.
--   Plan          bin/board_plan.py: `settle`, `_Planner` and `plan`.
--   Reactor       bin/board_reactor.py and bin/board_source.py: `State`, the backoff, one pass of the
--                 reactor, `record_health`. Cap, Day and Attempts are about the starts of a pass, of a
--                 day and of a card, Backoff about the memory of one start, Flips about the health.
--   Ledger        bin/board.py, the rows of a ledger and the decisions: Brief has `_brief_state`, `_runs`
--                 and the rounds of a brief, Flow `_flow` and `failed_streak`, Blocks `_blocks`, Derive
--                 `derive`. Columns, Research, Done and Unblock read the column of a view; Honest,
--                 Sorted and Forged are about rows that only look like decisions, Deletion about the last of
--                 the deletions and restorations.
--   Board         bin/board.py, the verbs: Actor has `require_actor`, Texts `normalise`, Write
--                 `hold_card`, `add_note` and `add_brief`, Edit `edit_card`, Pick `candidates` and
--                 `pick_card`, Trash the trash. Again, Runs, Append, Editable and Trashed are about
--                 them.
--   Broker        bin/control_broker.py: JSON values, refusals as values, the actions. Names has its
--                 patterns, Allowlist the allowlist file, Machine `Runner`, the waits and the lock,
--                 Units the views of systemd and their fingerprint, Implication what a resume would
--                 catch up on, Request `validate_request` and the choice of a trigger, Receipts
--                 `validate_receipt` and the preview receipt, Checks the plans and the preconditions,
--                 Steps `_execute` and `_execute_runtime`, Responses `_build_receipt` and `_response`,
--                 Target and Handle `handle`, Decide `handle_board`, Serve `serve`, Act `act`.
--                 Keeps, Looks, Views, Course and Bodies carry a property of a run through the
--                 handler, step by step, whatever systemd says. Previewed, Permitted and Allowed are
--                 about what a request may mutate, Untouched about refused ones, Refuses, Parsed and
--                 Receipted about the answer that every request gets, Ended about what the receipt
--                 keeps of the run, Stream about the decisions.
--
-- How the state corresponds. A JSON object is a record, an optional key an option, a dictionary an
-- association list in insertion order with Python's laws for `d[k] = v` and `del`. An instant is a
-- number of whole seconds: since 1970 in Incident, Plan, Reactor and Receipt, and since the first
-- day of year 1 in Ledger and Board, where `datetime.min` is 0, the value of a stamp that cannot
-- be read. `sorted` is a stable insertion sort. An exception is `none`, or `refused` with the
-- refusal of the verb. The time zone database is a function from a time on the box's clock to an
-- instant, sha256 a function on texts. Every loop of the source runs over a list, and is
-- structural recursion without fuel, but for the waits of the broker. A verb holds the card's lock
-- while it reads and writes, and is one step from board to board; a card id that is no slug names
-- no folder, and is refused as a missing card.
--
-- The broker runs on a machine of which nothing is known: systemd, the clock, the lock file and
-- the random bytes are a record of functions on a state that only the calls change. A step of the
-- handler takes the machine, the commands run so far and the result so far, and gives them back
-- with a value or with an exception: a refusal, a failed command, or one that nothing catches. A
-- wait polls on fuel, one for each poll: 16 for 15 s at 1 s, 151 for 30 s at 0.2 s, and one more
-- than the seconds of the settle window. That is enough on a clock that a look does not turn back
-- and that a sleep moves on by its length at least, which is all that a theorem of the broker asks
-- of its machine.
--
-- What is not modelled. Files, the locks of the board, subprocesses, git, systemd, inotify, the
-- HTTP servers, Notion and the web pages; the text that `pick` renders for a run; the parsing of
-- command lines. What these show to the modelled code is an argument of it. Of the broker: the
-- words of its messages, the parsing of its command line, the credentials of a socket and the writing of its
-- files; its allowlist is the JSON value in the file. The control room, the contracts, the pull
-- request tools and the delivery scripts stand outside this library.
pub mod Prelude
pub mod Stamp
pub mod Dates
pub mod Incident
pub mod Source
pub mod Plan
pub mod Reactor
pub mod Ledger
pub mod Board
pub mod Receipt
pub mod Broker
