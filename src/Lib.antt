-- ===== src/Lib.antt =====
-- Verification library of zhuzhbox-cli, the command-line client of the zhuzhbox file host.
--
-- The program uploads files in chunks that can be resumed, keeps a list of past uploads with their delete
-- tokens (the shelf) and a file of unfinished uploads (the sessions), and talks to the server through
-- libcurl. What is modelled, by file (paths from the repository's root):
-- - Upload/Bitmap, Upload/Geometry: job_mark, job_has, job_alloc_bitmap, job_chunk_length,
--   job_geometry_is_sane, job_next_missing and job_recount_confirmed of src/api/upload.c.
-- - Upload/Job: zb_job, the engine without its jobs, and the functions that start a request (job_start_*
--   over job_begin_request), job_fail, job_succeed, engine_persist_session and engine_drop_session.
-- - Upload/Job/Advance: job_advance, cut at its branches: advance_broken (no reply), advance_rejected (an
--   error status), advance_answered (2xx) and next_request (its end), with the two response handlers; and
--   zb_client_finish of src/api/client.c as far as job_advance uses it.
-- - Upload/Job/Schedule: zb_upload_engine_add, zb_upload_engine_resolve_resume, job_kick_off, the two loops of
--   a round of zb_upload_engine_run (start_ready, by turns, and drain, by messages of libcurl), engine_abort
--   and the final status. An Event is what the loops do to one job: its turn, or the end of its transfer.
-- - Upload/Job/Body: chunk_read_cb and chunk_seek_cb, by which libcurl reads a chunk.
-- - Store/Shelf, Store/ShelfFile: src/store/shelf.c in memory, as JSON text, and as a file; Store/Shelf/Sort
--   is the part on its orders.
-- - Store/Sessions, Store/SessionsFile: src/store/sessions.c in memory, as JSON text, and as a file.
-- - Store/Config: src/store/config.c; Store/Config/File is the part on the file.
-- - Store/Atomic: src/store/atomic.c.
-- - Json: src/util/json.c; Json/Concrete is an instance of its parameter for concrete inputs.
-- - Text: src/util/token.c, parts of src/util/str.c (Text/Utf8; Text/Filename, the names that are safe for
--   a file; Text/Escape, percent-escaping and trimming) and src/util/buf.c.
-- - Format: the calendar functions of src/util/platform.c (Format/Calendar), src/format/time.c (Format/Time,
--   Format/Relative), and of src/format/bytes.c zb_format_duration and zb_parse_size (Format/Size).
-- - Error: the status codes of src/util/error.h. Base: shared lists, strings, integers and searches.
-- - Tests: the theorems at concrete inputs.
--
-- How the code is represented. A function that changes an object takes it and returns it; a pointer into
-- an array is the element, and NULL is none. C strings are lists of bytes without the NUL. Widths: uint64_t
-- and size_t have 64 bits, wrap-around is written where the code can wrap, and int64_t differences are
-- integers. An entry of the shelf takes 64 bytes and a session 104. The length of an allocated bitmap is
-- that of its list. Error texts are not modelled, only the status of an error record. The outcomes of
-- allocations, of libcurl and of the operating system are arguments (Alloc, Calls, Disk, Reads, Finish),
-- also of the removal of a temporary file, which the code does not look at; in one step all copies of
-- strings succeed or fail together. The file system is a function from names to contents; what a write that
-- is broken off leaves in a file is an argument. The log of requests, of saves and of completions stands for
-- the calls of libcurl, of zb_sessions_save and of the on_complete callback.
--
-- The doubles of zb_parse_size are a parameter, Doubles, whose laws DoublesLaws say that integers up to 2^53
-- are exact. cJSON is a parameter, CJson, with its documented behaviour as CJsonLaws: look-up by key, adding
-- at the end, and a printed text that parses back; its own allocations succeed. qsort is an argument.
--
-- Fuel. zb_buf_reserve doubles on fuel 66: 65 doublings from any positive capacity pass 2^64, so the fuel
-- never runs out. The walks over UTF-8 take the length of the string, one round for each sequence. A number
-- is printed with at most 20 digits, which a uint64_t fits in. All other loops are structural; the 32 attempts
-- of zb_atomic_write are counted down.
--
-- Not modelled: src/commands, src/cli.c and src/main.c; tables, colours, progress and the printing of
-- sizes (src/format); src/api/client.c but for zb_client_finish; libcurl's transfers; the platform layer
-- but for its calendar. They print, parse options, or call other libraries.
pub mod Base
pub mod Upload
pub mod Error
pub mod Json
pub mod Store
pub mod Text
pub mod Format
pub mod Tests
