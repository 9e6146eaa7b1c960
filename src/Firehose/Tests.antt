-- ===== src/Firehose/Tests.antt =====
-- Instances for firehose.c: a file of five bytes for two sectors of four, and one that
-- cannot be read; a log and an answer in one read; an answer with two bytes of data behind it; a
-- read of two sectors.
use qfenix.Common.{
  Option, some, length, ap, sym, if◌then◌else◌, ◌==◌, ◌*◌, Bool, false, none, ℕ, ◌≡◌, refl, arith,
  true, List, [], ◌∷◌, ◌++◌,
}
use qfenix.Link.{Link, Exec, ok, pure, qdl_write}
use qfenix.Firehose.{read_chunk}
use qfenix.Firehose.Chunk.{results, joined}
use qfenix.Firehose.Answer.{
  Answer, RootNode, got, timed_out, response, firehose_generic_parser, firehose_response_parse,
  firehose_read, find_in_mem, starts_with, data_end, xml_length,
}
use qfenix.Firehose.Answer.Fragments.{
  IsQuiet, in_one_read, in_reads, tail_of, firehose_read-in_reads,
}
use qfenix.Firehose.Answer.Rawmode.{firehose_read-rawmode}
use qfenix.Firehose.Issue.{to_buffer, buffer_size, firehose_issue_read}
use qfenix.Firehose.Issue.Whole.{firehose_issue_read-whole}
use qfenix.Firehose.Write.Unread.{Unread, failing, firehose_program-Unread}
use qfenix.Patch.{same_string}
use qfenix.Tasks.{Program, empty_program}
use qfenix.Firehose.Write.{
  firehose_program, written_sectors, sector_size_of, source_of, program_loop, padded,
}
use qfenix.Firehose.Write.Sent.{Sends, reading, last_answer, without_vip, firehose_program-Sends}

abbrev idle : Link
idle = record { incoming = []; accepted = []; granted = []; stored = []; sent = []; files = [] }

abbrev pieces : List (List ℕ)
pieces = (2 ∷ 3 ∷ []) ∷ (4 ∷ []) ∷ []

-- The request is one message, the device always acknowledges.
abbrev request : Program → ℕ → Exec Bool
request p n l = (ok true, record l { sent = l.sent ++ (n ∷ []) ∷ [] })

abbrev content : List ℕ
content = 1 ∷ 2 ∷ 3 ∷ 4 ∷ 5 ∷ []

abbrev two_sectors : Link
two_sectors = record idle { sent = (2 ∷ []) ∷ [] }

firehose_program-Sends_example :
    Sends
      (last_answer (pure 0))
      (without_vip (pure tt) (pure 0) request 4 4 empty_program 5 (reading content) idle)
      two_sectors
      (written_sectors empty_program 4 5 * 4)
      content
unfolding sector_size_of written_sectors source_of
firehose_program-Sends_example =
    firehose_program-Sends (pure tt) (pure 0) content request 4 4 empty_program 5 0 idle two_sectors
      two_sectors refl refl refl refl (omega arith) (omega arith)

-- The loop sends the file and zeros.
sent_test :
    without_vip (pure tt) (pure 0) request 4 4 empty_program 5 (reading content) idle
    ≡ (ok 0, record idle { sent = (2 ∷ []) ∷ (1 ∷ 2 ∷ 3 ∷ 4 ∷ []) ∷ (5 ∷ 0 ∷ 0 ∷ 0 ∷ []) ∷ [] })
unfolding firehose_program program_loop padded qdl_write
sent_test = refl

-- The sixth byte cannot be read.
firehose_program-Unread_example :
    Unread
      (without_vip
        (pure tt)
        (pure 0)
        request
        4
        4
        empty_program
        8
        (failing (content ++ content) 5)
        idle)
      two_sectors
      (written_sectors empty_program 4 8 * 4)
      (content ++ content)
unfolding sector_size_of written_sectors source_of
firehose_program-Unread_example =
    firehose_program-Unread (pure tt) (pure 0) (content ++ content) 5 request 4 4 empty_program 8 0
      idle two_sectors two_sectors refl refl refl refl (omega arith) (omega arith) (omega arith)
      (omega arith) (omega arith)

-- One of the two sectors is sent.
unread_test :
    without_vip (pure tt) (pure 0) request 4 4 empty_program 8 (failing (content ++ content) 5) idle
    ≡ (ok 0, record idle { sent = (2 ∷ []) ∷ (1 ∷ 2 ∷ 3 ∷ 4 ∷ []) ∷ [] })
unfolding firehose_program program_loop padded qdl_write
unread_test = refl

abbrev ack : List ℕ
ack = 0x41 ∷ 0x43 ∷ 0x4b ∷ []

-- The start of `response`.
abbrev ack_name : List ℕ
ack_name = 0x72 ∷ 0x65 ∷ 0x73 ∷ []

abbrev log : List ℕ
log = 0x6c ∷ 0x6f ∷ 0x67 ∷ []

abbrev document_of : List ℕ → Option (List ℕ) → List RootNode
document_of name rawmode =
    record {
      is_element = true;
      name = 0x64 ∷ 0x61 ∷ 0x74 ∷ 0x61 ∷ [];
      children =
          record { is_element = true; name = name; value = some ack; rawmode = rawmode } ∷ [];
    }
    ∷ []

-- What libxml2 makes of two documents: a log for the shorter one, else an ACK.
abbrev two_documents : List ℕ → Option (List RootNode)
two_documents bytes =
    if length bytes == 6 then some (document_of log none) else some (document_of ack_name none)

abbrev raw_document : List ℕ → Option (List RootNode)
raw_document bytes = some (document_of ack_name (some (0x74 ∷ 0x72 ∷ 0x75 ∷ 0x65 ∷ [])))

-- What an answer says of the raw mode.
abbrev starts_raw : Option Answer → Bool
starts_raw node = elim node [ none ↦ false | some n ↦ (firehose_generic_parser n).1 ]

firehose_read-in_reads_example :
    firehose_read two_documents firehose_generic_parser
      (in_one_read (0x31 ∷ []) ((0x31 ∷ 0x32 ∷ []) ∷ []) ∷ timed_out true ∷ [])
      []
    ≡ firehose_read two_documents firehose_generic_parser
        (in_reads ((0x31 ∷ []) ∷ (0x31 ∷ 0x32 ∷ []) ∷ []) ++ timed_out true ∷ [])
        []
unfolding find_in_mem starts_with IsQuiet firehose_response_parse firehose_generic_parser xml_length
    same_string
firehose_read-in_reads_example =
    firehose_read-in_reads two_documents firehose_generic_parser (0x31 ∷ [])
      ((0x31 ∷ 0x32 ∷ []) ∷ []) (timed_out true ∷ []) [] (refl, (refl, tt))
      ((λ node e. ap starts_raw (sym e)), ((λ node e. ap starts_raw (sym e)), tt))

-- The answer behind the log is found.
log_test :
    firehose_read two_documents firehose_generic_parser
      (in_one_read (0x31 ∷ []) ((0x31 ∷ 0x32 ∷ []) ∷ []) ∷ timed_out true ∷ [])
      []
    ≡ (response (some 0), [], [])
unfolding firehose_read joined firehose_generic_parser starts_with same_string
log_test = refl

firehose_read-rawmode_example :
    (let bytes = tail_of (0x31 ∷ []) ++ (data_end ++ 7 ∷ 8 ∷ []) in
      let after = firehose_read raw_document firehose_generic_parser (got 0x3c bytes ∷ []) [] in
      (after.0 ≡ response (some 0))
      × (after.2 ≡ [])
      × (read_chunk 5 after.1 (record idle { incoming = results pieces ++ [] })
          ≡ (ok (true, (7 ∷ 8 ∷ []) ++ joined pieces), record idle { incoming = [] })))
unfolding find_in_mem starts_with joined firehose_response_parse firehose_generic_parser same_string
firehose_read-rawmode_example =
    firehose_read-rawmode raw_document firehose_generic_parser (0x31 ∷ []) 7 (8 ∷ []) [] []
      (record {
        is_element = true;
        name = ack_name;
        value = some ack;
        rawmode = some (0x74 ∷ 0x72 ∷ 0x75 ∷ 0x65 ∷ []);
      })
      0 5 pieces [] idle (refl, refl) (omega arith) refl refl ((omega arith), ((omega arith), tt))
      refl

-- The device acknowledges, with the first byte in the remainder.
abbrev with_first_byte : Exec (ℕ × List ℕ)
with_first_byte = pure (0, 1 ∷ [])

firehose_issue_read-whole_example :
    firehose_issue_read
      (λ bytes. pure none)
      (pure 0)
      with_first_byte
      (to_buffer 3)
      0
      2
      2
      (record idle { incoming = results pieces ++ [] })
    ≡ (ok (0, 1 ∷ 2 ∷ 3 ∷ []), record idle { incoming = [] })
unfolding buffer_size joined
firehose_issue_read-whole_example =
    firehose_issue_read-whole (λ bytes. pure none) (pure 0) with_first_byte 3 0 2 2 (1 ∷ [])
      (1 ∷ []) 0 (pieces ∷ []) [] (record idle { incoming = results pieces ++ [] })
      (record idle { incoming = results pieces ++ [] }) idle (record idle { incoming = [] }) refl
      refl refl (omega arith) (omega arith)
      (omega arith, (omega arith, (omega arith, tt)), refl, (refl, refl))
