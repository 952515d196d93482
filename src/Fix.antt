-- ===== src/Fix.antt =====
-- src/quantfinlib/fix: numeric fields, messages and the stream decoder. `Fix/Parse` reads fields,
-- `Fix/Render` writes them, `Fix/Digits` says what digits spell, `Fix/RoundTrip` what is read of
-- rendered numbers. `Fix/Message` builds messages, `Fix/Decoder` cuts them out of a stream; for
-- `Fix/Framing` the message is there, for `Fix/Fragments` a part of it, for `Fix/Stream` any
-- pieces. `Fix/Reader` parses a message into its fields, `Fix/ExecReport` reads an execution report
-- in place; `Fix/Fields`, `Fix/Parsing`, `Fix/Views` and `Fix/Reports` have the proofs.
pub mod Parse
pub mod Render
pub mod Digits
pub mod RoundTrip
pub mod Message
pub mod Decoder
pub mod Framing
pub mod Fragments
pub mod Values
pub mod Building
pub mod Corruption
pub mod OrderFields
pub mod Orders
pub mod Poll
pub mod Stream
pub mod Reader
pub mod Fields
pub mod Cuts
pub mod Parsing
pub mod ExecReport
pub mod Views
pub mod Reports
mod StreamTests
mod ReaderTests
mod Tests
