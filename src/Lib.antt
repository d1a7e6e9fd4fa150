-- ===== src/Lib.antt =====
-- UT-control: a C library with two parts. The KVP part (src/ut_kvp.c) reads profiles, YAML documents
-- that may include other files and URLs, and hands out their fields by dotted keys. The control
-- plane (src/ut_control_plane.c) receives YAML messages over HTTP or a WebSocket, puts them into a
-- queue, and a thread takes them out, loads each into a KVP instance and calls the functions that
-- clients have registered for its keys.
--
-- What stands where:
--   Base            Boolean tests, list operations and signed integers over the native numbers
--   CString         the functions of C on strings that the code calls, as the C standard defines them:
--                   strcmp and strstr (Compare), strncpy and memcpy (Buffer), strtoul (Number,
--                   Spelled), strtok (Token), snprintf (Print)
--   Kvp.Fyaml       what src/ut_kvp.c takes from libfyaml, libcurl and the file system, as parameters
--   Kvp.Instance    ut_kvp_createInstance, ut_kvp_destroyInstance, ut_kvp_close, validateInstance and
--                   ut_kvp_getData
--   Kvp.Key         convert_dot_to_slash, in the caller's array of 256 bytes
--   Kvp.Fields      ut_kvp_getField and the getters for integers, Booleans and floating point
--   Kvp.Nodes       ut_kvp_fieldPresent, ut_kvp_getStringField and ut_kvp_getListCount
--   Kvp.Bytes       ut_kvp_getDataBytes
--   Kvp.Pattern     find_pattern_from_buffer
--   Kvp.Download    write_memory_callback
--   Kvp.Include     process_node_copy, process_include and merge_nodes
--   Kvp.Include.Tree, Kvp.Include.Expand
--                   documents as trees, and the expansion of their includes, by recursion on the tree
--                   and on the levels that are left
--   Kvp.Open        ut_kvp_open and ut_kvp_openMemory; Kvp.Open.Loads and the modules beside it follow a
--                   load down to the trees
--   ControlPlane.Queue      enqueue_message and dequeue_message
--   ControlPlane.Http       callback_http and callback_echo
--   ControlPlane.Callbacks  UT_ControlPlane_RegisterCallbackOnMessage and call_callback_on_match
--   ControlPlane.Service    service_state_machine, and its interleaving with the receiving thread
--   ControlPlane.Lifecycle  UT_ControlPlane_Init, Start, Stop and Exit, with validateCPInstance
--   ControlPlane.Mapping    UT_Control_GetMapValue and UT_Control_GetMapString (include/ut_control_plane.h)
--   ControlPlane.System     service_ws_requests, both threads together, and the way from a POST to the
--                           calls that it makes
--   Log             UT_stripColorCode (src/ut_log.c)
--   Log.Line        UT_log_setLogFilePath, UT_log_getLogFilename, UT_log and UT_logPrefix
--   Log.Levels      UT_LOG, UT_LOG_STEP, UT_LOG_INFO, UT_LOG_DEBUG, UT_LOG_WARNING and UT_LOG_ERROR of
--                   include/ut_log.h
--   ControlPlane.Callbacks.Trees, ControlPlane.System.Trees
--                   the calls for messages and for POSTs, from the trees of their texts
--   Tests           small YAML libraries, and runs of the code over them
--
-- Conventions. A handle that may be NULL is an Option; a call that changes an object returns the
-- object as it leaves it. A C string is the list of its bytes in front of the NUL, an array the list
-- of all its bytes. An access outside an array or through NULL, or an `int` that overflows, is `none`
-- or `fault`, so a result that is neither says that there is none. A call of malloc is a Boolean or a
-- function of the size.
-- What the modelled code itself logs is left out. Where nodes are taken for trees (TreeView), the
-- functions that read nodes read the trees, and those that build nodes find memory; a mapping with
-- one more pair, and one with the pairs of another, are what libfyaml makes of them (World).
--
-- Bounds and fuel. The queue and the table of callbacks have 32 slots, a key 256 bytes, a body 4096;
-- includes nest 5 deep. The recursion of process_node_copy is on fuel; documents are finite trees
-- (IsFinite), and with the depth limit some fuel is enough for every document. The loop of
-- service_state_machine is on fuel, for which two more than the number of messages is enough where
-- the exit message is in the queue; behind its loop it joins the thread that serves the sockets, which
-- needs lws_service to return. strip_color_code takes as many rounds as the array has bytes.
--
-- ControlPlane.Service.Interleaving has the steps of the two threads as the queue sees them, and
-- ControlPlane.System.Threads has them with each call of callback_http; connections are numbered,
-- and the data of each is kept. A line of the log has at most 254 bytes in an array of 256, and the
-- name of its file at most 259 in one of 260.
--
-- Not modelled: what strftime, basename and a caller's format print, and UT_LOG_ASSERT,
-- which pastes its arguments into the format; mutexes and conditions, in that each call
-- of enqueue_message and dequeue_message holds the mutex throughout and is one step; memory that is
-- freed or leaked, apart from an instance's own block; the tests of the repository. libfyaml, libcurl,
-- libwebsockets and pthread are outside the repository.
pub mod Base
pub mod CString
pub mod Kvp
pub mod ControlPlane
pub mod Log
pub mod Tests
