-- ===== src/Lib.antt =====
-- The distributed document collaboration system: a name server (name_server/), which knows the files, who may use
-- them and where they are; storage servers (storage_server/), which keep the texts and let clients lock and edit
-- single sentences; clients (client/); and what they share (common/). Clients and servers exchange messages, texts
-- of fields that end with a newline.
--
-- A text is the list of its bytes without the final NUL (`CText`); numbers are native, and a w-bit counter is
-- reduced by `% 2 ^ w` where it can wrap around. An allocation always succeeds, and a pointer argument is never
-- NULL. What a C function leaves in an array is the result of its function here.
--
-- - Base: names and lemmas that all parts share: native lists, texts and their comparisons, signed integers.
-- - Text: common/utils.c, texts: trim_string, safe_strcpy, count_words, extract_sentence and others.
-- - Names: common/utils.c, validate_username, validate_filename, validate_permission, flatten_logical_path.
-- - Base64: common/utils.c, base64_encode and base64_decode.
-- - Protocol: common/protocol.c, messages; Protocol/Stream: the sockets, whose outcomes are a list given from
--   outside.
-- - Acl: the access lists of both servers, an array with its count being a list.
-- - NameServer/Index and NameServer/Cache: name_server/name_server.c, the hash table of the files and the cache in
--   front of it. NameServer/Registry puts both together with the array of files, as `NameServer` in
--   name_server/name_server.h does. A registry in agreement (`IsConsistent`) has every file at the place that the
--   index and the cache give for its name.
-- - NameServer/Files and NameServer/Permissions: the rights on a file. NameServer/Paths: logical paths.
--   NameServer/Servers: the choice of a storage server for a new file.
-- - NameServer/Exchange: storage_server_send_and_wait and its counterparts, which pass a command to a storage
--   server and the response back to the thread that waits for it. NameServer/Exchange/System has the threads, the
--   reader of the connection and the storage server as a step relation; `shared` allows calls that overlap, and
--   `notices` messages of the storage server's own that come while a response is awaited.
-- - NameServer/State: the whole state of the name server. The requests of clients, in run_client_loop, are
--   functions from the state and the fields of the message to the reply and the new state: NameServer/Creation
--   (CREATE, CREATEFOLDER), NameServer/Deletion (DELETE), NameServer/Location (REQ_LOC), NameServer/Copying (COPY),
--   NameServer/Info (INFO), NameServer/Execution (EXEC), NameServer/Sharing (ADDACCESS, REMACCESS),
--   NameServer/Mailbox (REQUEST_ACCESS, LIST_REQUESTS, APPROVE_ACCESS, REJECT_ACCESS), NameServer/Listing (VIEW,
--   VIEWFOLDER). What a storage server answers is a parameter `ask` of them, which Exchange stands behind.
-- - NameServer/Clients: ns_register_client, the sessions of connection_thread, and LIST_USERS.
--   NameServer/Connections: the entries of storage servers and their totals. NameServer/Sync: the messages of a
--   storage server in run_ss_loop. NameServer/Csv: the access lists as text. NameServer/Metadata: ns_save_metadata
--   and ns_load_metadata, to and from the text of the metadata file.
-- - Storage/Words and Storage/Sentence: storage_server/storage_server.c, the words and sentences of a text.
-- - Storage/State, Storage/Sessions and Storage/Numbers: the state of a storage server, its write sessions, and
--   parse_int. A file record is found through its address; the disk is a function from paths to texts, with the
--   paths that can be written and the largest text that fits.
-- - Storage/Writing: the handlers of a read, of a lock request and of an edit (handle_client_read,
--   handle_client_write_lock, handle_client_write_data). Storage/Commit: handle_client_etirw and
--   handle_client_undo. Storage/Checkpoints and Storage/Revert: the four handlers of checkpoints. A handler takes
--   the fields of its message and returns what is sent and the new state. Storage/Lifecycle: ss_create_file,
--   ss_delete_file and ss_handle_rename.
-- - Examples: the theorems on concrete inputs.
--
-- Bounds and fuel: a message has at most 65536 bytes and 32 fields, a user name 255 bytes, a file name 511, as in
-- the code. `split_words` runs on as much fuel as the text has bytes, of which each round uses up at least one;
-- `receive_loop`, `select_loop` and `remove_entries` count down the room and the rounds of the loops they model;
-- the plan of a deletion has as many entries as `remove_entries` has rounds.
--
-- Not modelled: the request MOVE of the name server, the .meta files of a storage server, the commands of the name
-- server to a storage server beside those in Storage/Lifecycle, copying and streaming on a storage server, the
-- client, logging, sockets and threads. A handler runs as if no other did, which the locks of the code give except
-- at the start of handle_client_etirw, where the bounds are read before the file is locked, and at the name server
-- while it waits for a storage server in CREATE, COPY, ADDACCESS, REMACCESS and APPROVE_ACCESS, where the lock of
-- the state is released. Totals of bytes and numbers in texts are whole numbers here, which do not overflow.
pub mod Base
pub mod Text
pub mod Acl
pub mod Base64
pub mod Protocol
pub mod NameServer
pub mod Storage
pub mod Names
pub mod Examples
