-- ===== src/Lib.antt =====
-- quantfinlib, a quantitative-finance library in Python: models of its discrete core and the
-- theorems about them.
--
-- The parts and their files:
--   Execution      src/quantfinlib/microstructure/execution.py: the side of an order, and a fill.
--   Nbbo           src/quantfinlib/marketdata/nbbo.py: per-venue quotes in, the consolidated best
--                  bid and offer out. `Nbbo/Join`, `Nbbo/Scan` and `Nbbo/Consolidated` describe the
--                  result of the loop of `_recompute`, `Nbbo/FastPath` compares the short cut of
--                  `on_venue_quote` with the loop, `Nbbo/Feed` has what a caller sees.
--   Itch           src/quantfinlib/marketdata/itch_codec.py: `Itch` has the message types,
--                  `Itch/View` the getters of `ItchView`, `Itch/Encode` the encoders,
--                  `Itch/RoundTrip` what a view reads of an encoded message, `Itch/Stock` the
--                  packing of a symbol.
--   L3Book         src/quantfinlib/marketdata/l3_book_builder.py: one symbol's book of resting
--                  orders, rebuilt from a feed. `L3Book/Orders` has the node and the containers,
--                  `L3Book` the edits of the book, `L3Book/Handlers` the methods, `L3Book/Feed`
--                  the calls as values, `L3Book/Wire` the method `on_message`. The proofs stand in
--                  `Sums`, `Best`, `Invariant`, `Removal`, `Safety` and `Queries` (the book agrees
--                  with its list of orders), `Ahead`, `Tracking`, `Rows`, `Credits`, `Priority`
--                  and `Runs` (the shares ahead of a tracked order), and `Messages` (encoded
--                  messages).
--   Iceberg        src/quantfinlib/execution/iceberg_order.py: an order shown in tranches;
--                  `Iceberg/Laws` has the proofs.
--   Fix            src/quantfinlib/fix/{fix_parse,fix_order_encoder,fix_message,fix_decoder,
--                  fix_exec_report_view}.py: `Fix/Parse` and `Fix/Render` have numeric fields, with
--                  proofs in `Fix/Digits` and `Fix/RoundTrip`; `Fix/Message` builds and frames
--                  messages and encodes orders, `Fix/Decoder` cuts a stream into messages and
--                  `Fix/Poll` parses them, with proofs in `Fix/Framing`, `Fix/Fragments` and
--                  `Fix/Stream`; `Fix/Reader` parses a
--                  message, `Fix/ExecReport` reads a report in place, with proofs in `Fix/Fields`,
--                  `Fix/Cuts`, `Fix/Parsing`, `Fix/Views` and `Fix/Reports`; `Fix/Values` has the
--                  values of fields, `Fix/Building` follows a built message to the parser,
--                  `Fix/Corruption` one of which a byte was changed, and `Fix/OrderFields` and
--                  `Fix/Orders` an order from the encoder over the stream to the parser.
--   Router         src/quantfinlib/execution/hft_sor.py: an order split over venues by price after
--                  fees; `Router/Sweep` and `Router/Laws` have the proofs.
--   Calendar       src/quantfinlib/fx/business_calendar.py: business days, rolls and lag walks;
--                  `Calendar/Civil` spells out the year, month and day that `datetime` gives.
--   CurrencyPair   src/quantfinlib/fx/currency_pair.py: a pair's conventions, spot and tenor dates
--                  over a joint calendar; `CurrencyPair/Settlement` has the proofs.
--   Gateway        src/quantfinlib/trading/paper_trading_gateway.py: a paper trading venue.
--                  `Gateway/Orders`, `Safety`, `Submission`, `Lifecycle`, `Returns` and
--                  `Liveness` have the proofs.
--   Checkpoint     src/quantfinlib/persist/checkpoint.py: files of named sections; `Checkpoint/Fields`
--                  has the round trips of fields and arrays, `Checkpoint/Sections` that of a file.
--   Backtest       src/quantfinlib/backtest/{backtester,backtest_config,trade}.py: the backtest of one
--                  strategy bar by bar; `Backtest/Chronology` has the proofs.
--   Crb            src/quantfinlib/crb/{central_risk_book,factor_registry}.py: exposures netted by risk
--                  factor; `Crb/Products` has the bookings. `Crb/Slots`, `Index`, `Ledger` and `Posting`
--                  prove what one leg does, `Crb/Bookings` what a booking does, `Crb/Netting` what any
--                  flows do.
--   Slicing        src/quantfinlib/execution/{slice,vwap_scheduler,twap_scheduler}.py: schedules of
--                  child orders; `Slicing/Rounds`, `Allocation` and `Schedules` have the proofs.
--   Scorecard      src/quantfinlib/execution/venue_scorecard.py: the measured quality of venues;
--                  `Scorecard/State` is about its checkpoint, `Scorecard/Pending` and
--                  `Scorecard/Events` about pending markouts.
--   Pov            src/quantfinlib/execution/pov_tracker.py: shares due by participation in the
--                  market's volume; `Pov/Bounds` has the proofs.
--   LastLook       src/quantfinlib/trading/last_look_gate.py: a maker's decision on deal requests;
--                  `LastLook/Decisions` has the proofs.
--   Dsl            src/quantfinlib/dsl/{rule,rules,strategy_builder}.py: trading rules over bar
--                  indices. `Dsl/Builder` has the fluent builder and the backtest of what it
--                  builds, `Dsl/WarmUp` and `Dsl/Entries` the proofs.
--   Prelude        shared names, Boolean tests, lists, signed integers, steps that may raise,
--                  dictionaries and big-endian fields of byte strings.
--
-- The decoder cuts out what the order encoder framed, and the parser reads it. The codec feeds the
-- book: `on_message` reads a message through the view and calls a handler of the book. The quote,
-- the book, the router and the gateway use the same sides. A currency pair settles over the union
-- of two calendars. The scorecard writes its state by the array helpers of the checkpoint. A
-- backtest asks its strategy for the signals of the trading rules, and a built strategy runs the
-- backtest.
--
-- A method is a function from the object's state to the new state and the result; an exception is
-- `none`; the risk book has an outcome with the state it leaves, a call of the gateway the state and
-- whether it returns, and a poll of the FIX decoder what it raises on. Python's integers are
-- unbounded: a value that can be negative is a `ℤ`, a count, a size after its guard or an index is
-- a number; the fields of a message have the widths of their format, and a price is masked to 32
-- bits and signed. `decimal` has fuel for one round more than its number, which has no more digits
-- than that. `seek_next` has fuel past the last holiday and a weekend, where a business day is
-- found; `sweep` has a round for each venue, of which every round takes one; `wrap` has a round for
-- each byte of its window, of which a field has two or more; `read_sections` has a round for each
-- byte of the file, and a section has six or more.
--
-- A floating-point number is an element of a parameter, the record `Double` of `Prelude/Double`, of
-- which a theorem assumes what it names and most assume nothing; `whole` is its instance with whole
-- numbers, for the examples. The limit checker of the gateway, the strategy of a backtest, the
-- greeks of an option, the tests that a name is blank and that bytes are UTF-8, numpy's sum,
-- argsort and random draws, the interpreter's sum, and the rendering and the reading of a
-- floating-point number as text are parameters too.
--
-- A tracked order's count is exact under the discipline of a price-time venue, that an execution
-- fills the oldest order of its level (`at_head`): the book credits an execution to every tracked
-- order of the level, wherever it rests.
--
-- Not modelled: numerical code (pricing, risk, volatility, rates, machine learning), whose results
-- rest on the rounding of floating-point numbers, and code that only formats, reads files or draws
-- random numbers; an iceberg order's jittered tranche sizes are a parameter.
pub mod Prelude
pub mod Execution
pub mod Nbbo
pub mod Iceberg
pub mod Calendar
pub mod Checkpoint
pub mod Gateway
pub mod CurrencyPair
pub mod Router
pub mod Fix
pub mod Itch
pub mod L3Book
pub mod LastLook
pub mod Pov
pub mod Dsl
pub mod Backtest
pub mod Crb
pub mod Slicing
pub mod Scorecard
