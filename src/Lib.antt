-- ===== src/Lib.antt =====
-- filemanager-httpd, an HTTP server that shares folders: a model of its core, with theorems.
--
-- The program is one process. src/main.c accepts connections and gives each that is ready a turn.
-- A turn, in src/serverconnection.c, reads from the socket, passes the bytes to the reader of
-- the request header (src/requestheader.c), then the body's bytes to the request's handler, and lets
-- the handler progress with the response. What the turn waits for goes through
-- src/dataprocessingresult.c to the descriptors of src/datareadyselector.c. A handler asks the
-- configuration (src/fmconfig.c) for the folder that a path is mapped to and for the user's
-- privileges, builds the response (src/respbuf.c) and sends it (src/responsesender.c). For a folder
-- the handler (src/reqhandler.c) leaves the body to the file manager (src/filemanager.c), which cuts
-- a form into parts (src/multipartdata.c, src/contentpart.c) and does to files what the form says.
--
-- Files:
--   Common            helpers; Common/Strings has what the C library does to text and numbers
--   DataChunk         src/datachunk.c: `dch_trimWS` is `trim_ws`, and so on
--   HeaderLines       the loop over header lines that src/dataheader.c and src/requestheader.c share
--   DataHeader        src/dataheader.c
--   RequestHeader     src/requestheader.c; RequestHeader/Url is its decoding of paths
--   ServerConnection  src/serverconnection.c; ServerConnection/Handler is the interface of a request
--                     handler, ServerConnection/Turn the turn of a connection
--   DataProcessingResult, DataReadySelector, ContentType, Folder   the source files of these names
--   Config            src/fmconfig.c: its global variables are the fields of a record; Config/Lookup has
--                     what asks the file system too
--   FileSystem        what the program asks the system about files, and does to them: interfaces
--   RequestHandler    src/reqhandler.c; RequestHandler/Routing is what `doProcessRequest` finds out of
--                     a path, RequestHandler/Pages the pages that are made there
--   FileManager       src/filemanager.c but for its page; FileManager/Operations has the operations
--                     of a form, FileManager/Permissions the permissions
--   MultipartData, ContentPart, MemBuf   src/multipartdata.c, src/contentpart.c, src/membuf.c
--   CgiExecutor       `runCgi` of src/cgiexecutor.c: what a program is started with
--   Auth              src/auth.c, with `config_getDigestAuthCredential`
--   RespBuf, ResponseSender, MainLoop   src/respbuf.c, src/responsesender.c, src/main.c
--   Tests             the theorems at concrete inputs
--
-- Text is a list of bytes, a pointer with its length is the list of the bytes there, and a NULL is
-- `none`. What a function changes of a structure is in the structure that it returns. A result -1 is
-- `none`. Unsigned 32-bit and 64-bit values wrap around where the program lets them: the size
-- of a chunk, and the length of a body. What the system's calls deliver is a list of results that the
-- model takes one after the other.
--
-- Loops over text run on fuel, which starts as the length of the text; each round takes at least a
-- byte, and theorems that say what a loop returns include that the fuel is enough. The loop of
-- `rsndr_send` takes its fuel as an argument, and for a response in memory one round is enough.
-- The loops of a connection's turn take their fuel as arguments too.
--
-- A set of descriptors for `select` is its members, which are below FD_SETSIZE, and whether a bit behind
-- its end was set.
--
-- The disk is a state that the operations on files pass along. A form's parts are kept as what is to
-- be done for them on the disk, which happens in the same order when the form is processed. The
-- depth of a folder that is removed is bounded by fuel.
--
-- Not modelled: the page of src/filemanager.c that lists a folder, the processes and pipes of
-- src/cgiexecutor.c with what passes through them, src/md5calc.c, the log and the command line. The
-- MD5 sum, the CGI executor and the system's calls are parameters; the request handler is one for the
-- connection, and the file manager one for the request handler, with the forms that end the program. The sleep after a failed login has no effect on the state.
-- Memory is not modelled but for the buffers of src/membuf.c: there is no failure of an allocation.
pub mod Common
pub mod DataChunk
pub mod HeaderLines
pub mod DataHeader
pub mod RequestHeader
pub mod MemBuf
pub mod DataProcessingResult
pub mod DataReadySelector
pub mod ServerConnection
pub mod Config
pub mod RespBuf
pub mod MainLoop
pub mod ResponseSender
pub mod Auth
pub mod ContentType
pub mod Folder
pub mod FileSystem
pub mod RequestHandler
pub mod MultipartData
pub mod ContentPart
pub mod FileManager
pub mod CgiExecutor
pub mod Tests
