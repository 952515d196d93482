-- ===== src/Fix/Stream.antt =====
-- src/quantfinlib/fix/fix_decoder.py: the decoder under any sequence of calls implements a queue of
-- messages, of which some bytes have come.
use quant_finance_py.Prelude.{
  ℕ, ◌+◌, ◌-◌, ◌≤◌, ◌<◌, ◌≡◌, refl, ap, sym, ◌∙◌, none, some, List, [], ◌∷◌, ◌++◌, ltb, length,
  take, drop, if◌then◌else◌, All, arith, Bool-cases, Option-cases, inl, inr, length-append,
}
use mathlib.Core.List.{append_assoc}
use quant_finance_py.Fix.Message.{framed}
use quant_finance_py.Fix.Decoder.{body_length_cap, wait, message, feed, extract}
use quant_finance_py.Fix.Reader.{FixMessage, parse}
use quant_finance_py.Fix.Poll.{
  pending, broken, unparsed, parsed, poll, poll_pending, poll_unparsed, poll_parsed,
}
use quant_finance_py.Fix.Framing.{extract-framed}
use quant_finance_py.Fix.Fragments.{strip, extract-prefix, extract_short}

-- A call of the decoder: a slice of some data is fed, or a message is polled.
pub data Call : Type 0 where
  fed : List ℕ → ℕ → ℕ → Call
  polled : Call

-- What a caller gets of a poll: nothing, a message, or an error of the message or of the stream.
pub data Reply : Type 0 where
  nothing bad_message bad_stream : Reply
  received : FixMessage → Reply

-- The replies to the polls among some calls. The caller goes on after an error.
unfoldable pub replies : List ℕ → List Call → List Reply
unfolding feed
replies buf [] = []
replies buf (fed bytes offset count ∷ calls) = replies (feed buf bytes offset count) calls
replies buf (polled ∷ calls) = elim (poll buf) [
  | pending ↦ nothing ∷ replies buf calls
  | broken ↦ bad_stream ∷ replies buf calls
  | unparsed rest ↦ bad_message ∷ replies rest calls
  | parsed m rest ↦ received m ∷ replies rest calls
]

abbrev pub arrived : List Call → List ℕ
arrived [] = []
arrived (fed bytes offset count ∷ calls) = take count (drop offset bytes) ++ arrived calls
arrived (polled ∷ calls) = arrived calls

-- What the bytes of a whole message give.
abbrev pub reply_to : List ℕ → Reply
reply_to m = elim (parse m) [ none ↦ bad_message | some f ↦ received f ]

-- The queue: the messages due, and how many of their bytes are there. A poll takes the first one
-- if it is there whole, whether it can be parsed or not.
abbrev pub queue_replies : ℕ → List (List ℕ) → List Call → List Reply
queue_replies n due [] = []
queue_replies n due (fed bytes offset count ∷ calls) =
    queue_replies (n + length (take count (drop offset bytes))) due calls
queue_replies n [] (polled ∷ calls) = nothing ∷ queue_replies n [] calls
queue_replies n (m ∷ due) (polled ∷ calls) =
    if ltb n (length m)
    then nothing ∷ queue_replies n (m ∷ due) calls
    else reply_to m ∷ queue_replies (n - length m) due calls

abbrev pub stream : List (List ℕ) → List ℕ
stream [] = []
stream (body ∷ bodies) = framed body ++ stream bodies

abbrev pub messages : List (List ℕ) → List (List ℕ)
messages [] = []
messages (body ∷ bodies) = framed body ∷ messages bodies

abbrev pub IsWithinCap : List ℕ → Type 0
IsWithinCap body = length body ≤ body_length_cap

-- The first message is in the buffer only in part.
extract_waits :
    (body buf more rest : List ℕ)
    → IsWithinCap body
    → buf ++ more ≡ framed body ++ rest
    → length buf < length (framed body)
    → extract buf ≡ wait
extract_waits body buf more rest fits e short =
    let (zs, front, back) = strip buf more (framed body) rest e (omega arith) in
    extract-prefix body buf zs fits front
      (let size = ap length front in omega (arith, length-append buf zs))

extract_takes :
    (body buf more rest : List ℕ)
    → IsWithinCap body
    → buf ++ more ≡ framed body ++ rest
    → length (framed body) ≤ length buf
    → (left : List ℕ) × (extract buf ≡ message (framed body) left)
      × (left ++ more ≡ rest)
      × (length left ≡ length buf - length (framed body))
extract_takes body buf more rest fits e long =
    let (zs, front, back) = strip (framed body) rest buf more (sym e) long in
    (
      zs,
      ap extract front ∙ extract-framed body zs fits,
      sym back,
      (let size = ap length front in omega (arith, length-append (framed body) zs)),
    )

replies_wait :
    (calls : List Call) (buf : List ℕ)
    → extract buf ≡ wait
    → replies buf (polled ∷ calls) ≡ nothing ∷ replies buf calls
unfolding replies
replies_wait calls buf h = rw (poll_pending buf h, replies) refl

replies_take :
    (calls : List Call) (buf m left : List ℕ)
    → extract buf ≡ message m left
    → replies buf (polled ∷ calls) ≡ reply_to m ∷ replies left calls
unfolding replies parse
replies_take calls buf m left h = elim (Option-cases (parse m)) [
  | inl c ↦ rw (poll_unparsed buf m left h c, c, replies) refl
  | inr (f, c) ↦ rw (poll_parsed buf m left f h c, c, replies) refl
]

-- For a buffer that makes up a stream of framed messages within the cap, with the bytes that the
-- calls feed and some bytes unseen, any sequence of feeds and polls answers each poll as the queue of
-- these messages does, of which the bytes so far have come: the first one due is taken when it is
-- there whole, and the answer is what the parser makes of its bytes, a message or its error. The
-- stream itself is never found corrupt.
pub replies-queue :
    (calls : List Call) (buf unseen : List ℕ) (bodies : List (List ℕ))
    → All IsWithinCap bodies
    → buf ++ (arrived calls ++ unseen) ≡ stream bodies
    → replies buf calls ≡ queue_replies (length buf) (messages bodies) calls
unfolding replies
replies-queue [] buf unseen bodies fits e = refl
replies-queue (fed bytes offset count ∷ calls) buf unseen bodies fits e =
    let chunk = take count (drop offset bytes) in
    (replies-queue calls (buf ++ chunk) unseen bodies fits (
        append_assoc buf chunk (arrived calls ++ unseen)
        ∙ ap (λ xs. buf ++ xs) (sym (append_assoc chunk (arrived calls) unseen))
        ∙ e)
      ∙ ap (λ n. queue_replies n (messages bodies) calls) (length-append buf chunk))
replies-queue (polled ∷ calls) [] unseen [] fits e =
    replies_wait calls [] (extract_short [] (omega arith))
    ∙ ap (λ r. nothing ∷ r) (replies-queue calls [] unseen [] fits e)
replies-queue (polled ∷ calls) (b ∷ bs) unseen [] fits e =
    absurd (let size = ap length e in omega arith)
replies-queue (polled ∷ calls) buf unseen (body ∷ bodies) fits e =
    elim (Bool-cases (ltb (length buf) (length (framed body)))) [
      | inl c ↦
          (let waits =
              extract_waits body buf (arrived calls ++ unseen) (stream bodies) fits.0 e
                (ground arith) in
            rw c (
              replies_wait calls buf waits
              ∙ ap (λ r. nothing ∷ r) (replies-queue calls buf unseen (body ∷ bodies) fits e)))
      | inr c ↦
          (let (left, takes, after, size) =
              extract_takes body buf (arrived calls ++ unseen) (stream bodies) fits.0 e
                (ground arith) in
            rw c (
              replies_take calls buf (framed body) left takes
              ∙ ap (λ r. reply_to (framed body) ∷ r)
                  (replies-queue calls left unseen bodies fits.1 after
                    ∙ ap (λ n. queue_replies n (messages bodies) calls) size)))
    ]
