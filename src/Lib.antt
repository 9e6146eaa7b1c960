-- ===== src/Lib.antt =====
-- qfenix flashes and rescues devices with Qualcomm chips: it uploads a programmer with the Sahara
-- protocol, then programs storage with the Firehose protocol, and talks to running modems over the
-- diagnostic protocol and AT commands. This library models its protocol cores and proves what they
-- promise.
--
-- Parts and how they interact. The program opens a transport (io.c over usb.c, pcie.c or sim.c),
-- runs sahara_run of sahara.c on it with the table of images, and then the Firehose commands; before
-- each Firehose command and each block of data vip_transfer_handle_tables of vip.c may send a table of
-- digests. The diagnostic commands of diag.c are framed by hdlc.c.
--
-- Files and what they model:
--   Common.antt and its children: Boolean tests, lists, words of bytes in little-endian order, and
--     exclusive or on the native numbers.
--   Link.antt: qdl_read and qdl_write of io.c, and the calls of malloc, open and write, whose results
--     come from scripts in a state that is passed along. A result of a function is a value, a failed
--     assert, an exit by err(1), an access outside an object, or the end of the fuel. Link/Ends.antt
--     and Link/Post.antt have the rules for termination and for postconditions of steps.
--   Hdlc.antt: hdlc.c whole. A buffer is the list of the bytes that were written to it; every test
--     against the size of a buffer is written out with the position. Hdlc/Crc, Residue, Check,
--     Stuffing and Frame have the laws.
--   Sahara.antt: sahara.c. Sahara/Glob.antt has pattern_match and sahara_debug64_filter,
--     Sahara/Image.antt the handlers of the image transfer, Sahara/Dump.antt the memory dump
--     (sahara_debug64, sahara_debug64_one), Sahara/Run.antt the main loop sahara_run.
--   Vip.antt: vip_transfer_handle_tables and what it calls, Vip/Tables.antt vip_transfer_init and
--     vip_transfer_deinit of vip.c, Vip/Schedule.antt the order of the tables.
--   Pdu.antt: pdu.c and ucs2_utf8.c. Pdu/Alphabet.antt has the tables and their use, Pdu/Septets.antt
--     pdu_encode_7bit and pdu_decode_7bit, Pdu/Phone.antt encode_phone and decode_phone,
--     Pdu/Submit.antt pdu_encode, Pdu/Deliver.antt pdu_decode, Pdu/Utf8.antt ucs2_to_utf8. Strings are
--     lists without the NUL.
--   Sparse.antt: sparse.c, on a file with a position. Sparse/Reads.antt, Sparse/Chunks.antt and
--     Sparse/Header.antt have the laws.
--   Patch.antt: the tags and the execution of patch.c (its patch_load is in Tasks/Load.antt), with
--     attr_as_string, attr_as_unsigned and normalize_path of util.c. A node of
--     libxml2 is a record of what the code asks of it, and strtoul is a parameter.
--   Firehose.antt: fh_remainder_save, fh_remainder_drain and the reads of a chunk in
--     firehose_issue_read of firehose.c, all of which is in Firehose/Issue.antt. Firehose/Write.antt
--     has firehose_program; its request, the steps for VIP and the answers of the device are
--     parameters. A sector that fits into the payload is left behind in each round, so the fuel is one
--     more than the sectors. Firehose/Answer.antt has firehose_read, which reads answers from a script
--     of its own, with timeouts and errors apart; libxml2 is a parameter. The loop over the fragments
--     of a read has more rounds than bytes.
--   Gpt.antt: gpt.c. Gpt/Utf16.antt has utf16le_to_utf8, Gpt/Table.antt the loading of the tables,
--     Gpt/Find.antt gpt_find_by_name and gpt_get_active_slot. What a read of a sector delivers is a
--     parameter: the same sector, the same bytes. The loop over the physical partitions, which ends at
--     a read that fails, has fuel for one round more than there are physical partitions.
--   Nodes.antt: list.h, the lists as pointers in a store. The other files keep lists as values; the
--     list of programs has its pointers beside it, since program.c can add one node twice.
--   Tasks.antt: program.c, read.c, firehose_op.c, patch_load of patch.c and parse_storage_address of util.c. Tasks/Load.antt
--     has the tags of the files, Tasks/Queue.antt the runs of the queue, Tasks/Address.antt the
--     commands and the look-ups, Tasks/Labels.antt the searches. An operation of the queue holds the
--     place of its program, read or patch in its list, which stands for the pointer. strtoul with base
--     0, the files that can be opened, the device and the MD5 sums are parameters.
--   Ufs.antt: ufs.c. The attributes of a node are a function, the device is three functions. Ufs/Parts
--     and Ufs/Laws are about the file, Ufs/Rounds about the messages.
--
-- Integers are native natural numbers. A field of a packet is read as a number below the power of two
-- of its width, and a sum that the code computes in 64 bits keeps its remainder modulo 2 ^ 64.
-- Offsets into buffers, which the code bounds before they could wrap, are plain numbers.
--
-- Fuel. The loops of the memory dump and the main loop of Sahara wait for the device, so they recurse
-- on fuel: the bytes that the script of reads can still bring, plus one, for the main loop, each round
-- of which takes at least eight bytes, the number of reads left for the dump and for a chunk of
-- firehose.c, and the regions that fit into the table of the dump, plus one. A device that answers
-- forever is outside the model, as is time: a read without a result is a timeout.
--
-- Not modelled: console output and progress, the transport's drivers, threads, the XML library, the
-- copies of SHA-256 and MD5, the graphical interface, and the parts of the program beyond the files
-- above.
pub mod Common
pub mod Hdlc
pub mod Link
pub mod Sahara
pub mod Vip
pub mod Pdu
pub mod Sparse
pub mod Patch
pub mod Firehose
pub mod Gpt
pub mod Nodes
pub mod Tasks
pub mod Ufs
