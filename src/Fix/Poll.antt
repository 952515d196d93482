-- ===== src/Fix/Poll.antt =====
-- src/quantfinlib/fix/fix_decoder.py: `poll`, which takes the bytes of a message out of the buffer and
-- then parses them.
use quant_finance_py.Prelude.{ℕ, ◌≡◌, refl, none, some, List}
use quant_finance_py.Fix.Decoder.{wait, corrupt, message, extract}
use quant_finance_py.Fix.Reader.{FixMessage, parse}

-- What a poll does: it waits for more bytes, it raises on the stream and leaves the buffer, it raises
-- on a message and leaves the bytes behind it, or it returns a message and leaves the bytes behind.
pub data Poll : Type 0 where
  pending broken : Poll
  unparsed : List ℕ → Poll
  parsed : FixMessage → List ℕ → Poll

unfoldable pub poll : List ℕ → Poll
poll buf = elim (extract buf) [
  | wait ↦ pending
  | corrupt ↦ broken
  | message m rest ↦ elim (parse m) [ none ↦ unparsed rest | some f ↦ parsed f rest ]
]

pub poll_pending : (buf : List ℕ) → extract buf ≡ wait → poll buf ≡ pending
unfolding poll
poll_pending buf h = rw (h, poll) refl

pub poll_unparsed :
    (buf m rest : List ℕ) → extract buf ≡ message m rest → parse m ≡ none → poll buf ≡ unparsed rest
unfolding poll
poll_unparsed buf m rest h k = rw (h, k, poll) refl

pub poll_parsed :
    (buf m rest : List ℕ) (f : FixMessage)
    → extract buf ≡ message m rest
    → parse m ≡ some f
    → poll buf ≡ parsed f rest
unfolding poll
poll_parsed buf m rest f h k = rw (h, k, poll) refl
