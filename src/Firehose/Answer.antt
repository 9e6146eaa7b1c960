-- ===== src/Firehose/Answer.antt =====
-- firehose.c: firehose_read, which takes the answers of the device apart, with find_in_mem,
-- firehose_response_parse and firehose_generic_parser.
pub mod Fragments
pub mod Rawmode
mod Rounds
use qfenix.Common.{
  ℕ, zero, suc, ◌+◌, ◌-◌, Bool, true, false, not, Option, none, some, List, [], ◌∷◌, length, take,
  drop, ◌==◌, ltb, ◌&&◌, ◌||◌, if◌then◌else◌,
}
use qfenix.Firehose.{fh_remainder_save}
use qfenix.Patch.{same_string}

-- `memcmp` of the bytes in front with the needle.
unfoldable pub starts_with : List ℕ → List ℕ → Bool
starts_with [] bytes = true
starts_with (n ∷ needle) [] = false
starts_with (n ∷ needle) (b ∷ bytes) = (b == n) && starts_with needle bytes

-- The place of the first occurrence.
unfoldable pub find_in_mem : List ℕ → List ℕ → Option ℕ
find_in_mem needle [] = if starts_with needle [] then some 0 else none
find_in_mem needle (b ∷ rest) = elim (starts_with needle (b ∷ rest)) [
  | true ↦ some 0
  | false ↦ elim (find_in_mem needle rest) [ none ↦ none | some k ↦ some (suc k) ]
]

-- `<?xml` and `</data>`.
abbrev pub xml_start : List ℕ
xml_start = 0x3c ∷ 0x3f ∷ 0x78 ∷ 0x6d ∷ 0x6c ∷ []

abbrev pub data_end : List ℕ
data_end = 0x3c ∷ 0x2f ∷ 0x64 ∷ 0x61 ∷ 0x74 ∷ 0x61 ∷ 0x3e ∷ []

-- What the code asks of a node in `data`.
pub record Answer : Type 0 where
  pub is_element : Bool
  pub name : List ℕ
  pub value : Option (List ℕ)
  pub rawmode : Option (List ℕ)

-- A node at the root of a document.
pub record RootNode : Type 0 where
  pub is_element : Bool
  pub name : List ℕ
  pub children : List Answer

unfoldable pub first_element : List Answer → Option Answer
first_element [] = none
first_element (node ∷ rest) = if node.is_element then some node else first_element rest

unfoldable pub data_node : List RootNode → Option RootNode
data_node [] = none
data_node (node ∷ rest) =
    let later = data_node rest in
    if node.is_element && same_string node.name (0x64 ∷ 0x61 ∷ 0x74 ∷ 0x61 ∷ [])
    then some node
    else later

-- Of a document that `xmlReadMemory` accepts.
unfoldable pub firehose_response_parse : Option (List RootNode) → Option Answer
unfolding data_node first_element
firehose_response_parse none = none
firehose_response_parse (some nodes) = elim (data_node nodes) [
  | none ↦ none
  | some node ↦ first_element node.children
]

-- The result, `none` for a negative one, and whether `*rawmode` is set.
unfoldable pub firehose_generic_parser : Answer → Option ℕ × Bool
firehose_generic_parser node = elim node.value [
  | none ↦ (none, false)
  | some value ↦ (
    if same_string node.name (0x6c ∷ 0x6f ∷ 0x67 ∷ [])
        then none
        else if same_string value (0x41 ∷ 0x43 ∷ 0x4b ∷ [])
        then some 0
        else if same_string value (0x4e ∷ 0x41 ∷ 0x4b ∷ [])
        then some 1
        else none,
    elim node.rawmode [
      | none ↦ false
      | some mode ↦ same_string mode (0x74 ∷ 0x72 ∷ 0x75 ∷ 0x65 ∷ [])
    ],
  )
]

-- `resp`, `none` for the -EIO it starts with; `rawmode`; and the remainder.
pub record Seen : Type 0 where
  pub resp : Option ℕ
  pub rawmode : Bool
  pub remainder : List ℕ

unfoldable pub skip_to_xml : List ℕ → List ℕ
skip_to_xml [] = []
skip_to_xml (b ∷ rest) = if b == 0x3c then b ∷ rest else skip_to_xml rest

-- Where the next document starts, behind the first byte of the fragment.
unfoldable pub next_document : List ℕ → Option ℕ
unfolding find_in_mem
next_document rest = if ltb 4 (length rest) then find_in_mem xml_start rest else none

-- The length of the XML in front of a fragment.
unfoldable pub xml_length : List ℕ → ℕ
unfolding find_in_mem
xml_length fragment = elim (find_in_mem data_end fragment) [
  | none ↦ length fragment
  | some k ↦ k + 7
]

unfoldable pub keep_leftover : List ℕ → Seen → Seen
unfolding fh_remainder_save
keep_leftover [] seen = seen
keep_leftover (b ∷ rest) seen = record seen { remainder = fh_remainder_save (b ∷ rest) }

-- A read of some bytes; a timeout or a read of none, and whether there is time left then; -EIO.
pub data Reading : Type 0 where
  got : ℕ → List ℕ → Reading
  timed_out no_bytes : Bool → Reading
  io_error : Reading

-- How firehose_read ends: with `resp`, or -ETIMEDOUT.
pub data ReadEnd : Type 0 where
  response : Option ℕ → ReadEnd
  etimedout : ReadEnd

-- `xmlReadMemory`, and the parser of the response.
module _ (read_memory : List ℕ → Option (List RootNode)) (parser : Answer → Option ℕ × Bool) where
  unfoldable pub parse_fragment : List ℕ → Seen → Seen
  unfolding firehose_response_parse
  parse_fragment xml seen = elim (firehose_response_parse (read_memory xml)) [
    | none ↦ seen
    | some node ↦ record seen {
      resp = elim (parser node).0 [ none ↦ seen.resp | some ret ↦ some ret ];
      rawmode = seen.rawmode || (parser node).1;
    }
  ]

  -- The loop over the fragments of what was read; each takes at least one byte.
  unfoldable pub read_fragments : ℕ → List ℕ → Seen → Seen
  unfolding skip_to_xml next_document xml_length parse_fragment keep_leftover
  read_fragments zero bytes seen = seen
  read_fragments (suc fuel) bytes seen = elim (skip_to_xml bytes) [
    | [] ↦ seen
    | b ∷ rest ↦
        let next = next_document rest in
        let fragment : List ℕ = elim next [ none ↦ b ∷ rest | some k ↦ take (suc k) (b ∷ rest) ] in
        let xml_len = xml_length fragment in
        let seen' = parse_fragment (take xml_len fragment) seen in
        elim seen'.rawmode [
          | true ↦ keep_leftover (drop xml_len (b ∷ rest)) seen'
          | false ↦ elim next [ none ↦ seen' | some k ↦ read_fragments fuel (drop k rest) seen' ]
        ]
  ]

  -- The loop of reads: how it ends, the remainder, and the reads that are left. A read for which
  -- nothing is said is -EIO.
  unfoldable pub read_answers : List Reading → Seen → ReadEnd × List ℕ × List Reading
  unfolding read_fragments
  read_answers [] seen = (response seen.resp, seen.remainder, [])
  read_answers (io_error ∷ rest) seen = (response seen.resp, seen.remainder, rest)
  read_answers (timed_out in_time ∷ rest) seen = elim seen.resp [
    | some ret ↦ (response (some ret), seen.remainder, rest)
    | none ↦ elim in_time [
      | true ↦ read_answers rest seen
      | false ↦ (etimedout, seen.remainder, rest)
    ]
  ]
  read_answers (no_bytes in_time ∷ rest) seen = elim in_time [
    | true ↦ read_answers rest seen
    | false ↦ (etimedout, seen.remainder, rest)
  ]
  read_answers (got b bytes ∷ rest) seen =
      let seen' = read_fragments (suc (suc (length bytes))) (b ∷ bytes) seen in
      elim seen'.rawmode [
        | true ↦ (response seen'.resp, seen'.remainder, rest)
        | false ↦ read_answers rest seen'
      ]

  -- On a device that is not simulated.
  unfoldable pub firehose_read : List Reading → List ℕ → ReadEnd × List ℕ × List Reading
  unfolding read_answers
  firehose_read readings remainder =
      read_answers readings (record { resp = none; rawmode = false; remainder = remainder })
