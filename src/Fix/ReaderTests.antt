-- ===== src/Fix/ReaderTests.antt =====
-- A heartbeat in three pieces, its fields, and an execution report behind some other bytes.
use quant_finance_py.Prelude.{
  ℕ, ◌≡◌, refl, arith, true, none, some, List, [], ◌∷◌, ◌++◌, length, take,
}
use quant_finance_py.Prelude.Int.{pos, negsuc}
use quant_finance_py.Fix.Render.{price, decimal, decimal_digits}
use quant_finance_py.Fix.Message.{framed, builder, encode, head_of, trailer_of, field_bytes}
use quant_finance_py.Fix.Corruption.{parse-corrupted}
use quant_finance_py.Fix.Stream.{Call, fed, polled, replies, queue_replies, messages, replies-queue}
use quant_finance_py.Fix.Reader.{int_of, parse}
use quant_finance_py.Fix.Fields.{wire, fields_of}
use quant_finance_py.Fix.Parsing.{header_of, checksum_of}
use quant_finance_py.Fix.Building.{with_fields, sent, parse-encode}
use quant_finance_py.Fix.ExecReport.{wrap}
use quant_finance_py.Fix.Reports.{Report, fields_of_report, view_of_report, wrap-report}

-- 35=0 and 34=7
abbrev heartbeat : List (ℕ × List ℕ)
heartbeat = (35, b'0' ∷ []) ∷ (34, b'7' ∷ []) ∷ []

abbrev bytes : List ℕ
bytes = framed (wire heartbeat)

abbrev calls : List Call
calls = fed bytes 0 10 ∷ polled ∷ fed bytes 10 15 ∷ polled ∷ fed bytes 25 100 ∷ polled ∷ polled ∷ []

replies-queue_example : replies [] calls ≡ queue_replies 0 (messages (wire heartbeat ∷ [])) calls
unfolding framed
replies-queue_example = replies-queue calls [] [] (wire heartbeat ∷ []) (omega arith, tt) refl

spaced : int_of (b' ' ∷ b'-' ∷ b'1' ∷ b'_' ∷ b'2' ∷ []) ≡ some (negsuc 11)
unfolding int_of
spaced = refl

-- A test request that is sent again.
abbrev request : List (ℕ × List ℕ)
request = (112, b'T' ∷ []) ∷ []

parse-encode_example :
    parse (
      encode
        (with_fields (builder (b'1' ∷ [])) request)
        (b'A' ∷ [])
        (b'B' ∷ [])
        7
        (b'x' ∷ [])
        true
        (some (b'y' ∷ [])))
    ≡ some (
        fields_of [] (
          header_of
            (sent (b'1' ∷ []) (b'A' ∷ []) (b'B' ∷ []) 7 (b'x' ∷ []) true (some (b'y' ∷ [])) request)
          ++ (
            10,
            checksum_of (
                sent
                  (b'1' ∷ [])
                  (b'A' ∷ [])
                  (b'B' ∷ [])
                  7
                  (b'x' ∷ [])
                  true
                  (some (b'y' ∷ []))
                  request),
          )
            ∷ []))
parse-encode_example =
    parse-encode (b'1' ∷ []) (b'A' ∷ []) (b'B' ∷ []) 7 (b'x' ∷ []) true (some (b'y' ∷ [])) request
      (refl, tt) (refl, tt) (refl, tt) (refl, tt) (refl, tt) ((refl, tt), tt) (refl, tt)

-- Any other checksum is refused.
refused : parse (take 30 bytes ++ b'9' ∷ 1 ∷ []) ≡ none
unfolding framed parse
refused = refl

-- The sequence number 8 in place of 7.
parse-corrupted_example :
    parse (
      (take 23 bytes ++ b'8' ∷ ([] ++ 1 ∷ []))
      ++ trailer_of (head_of (wire heartbeat) ++ wire heartbeat))
    ≡ none
unfolding framed field_bytes decimal decimal_digits
parse-corrupted_example =
    parse-corrupted (wire heartbeat) (take 23 bytes) [] b'7' b'8' (omega arith) (omega arith)
      (λ e. ground arith) refl

abbrev report : Report
report = record {
  cl_ord_id = 42;
  exec_type = b'F';
  ord_status = b'2';
  side = b'1';
  symbol = b'E' ∷ b'U' ∷ [];
  last_qty = 100;
  last_px = b'1' ∷ b'.' ∷ b'0' ∷ b'8' ∷ [];
  cum_qty = 100;
  leaves_qty = 0;
}

wrap-report_example :
    wrap
      ((b'x' ∷ []) ++ (framed (wire (fields_of_report report)) ++ (b'y' ∷ [])))
      1
      (length (framed (wire (fields_of_report report))))
    ≡ some (view_of_report report (pos 108) 2, true)
unfolding price
wrap-report_example =
    wrap-report report (pos 108) (pos 2) (b'x' ∷ []) (b'y' ∷ [])
      (refl, refl, refl, (refl, (refl, tt))) refl
