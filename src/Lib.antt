-- ===== src/Lib.antt =====
-- Models and proofs for the C programs of this repository. Paths are from the repository's root.
--
-- Parts and files:
--   LinkedList      Graph ADT with BFS & Shortest Paths/List.c, the doubly linked list with a cursor.
--                   The nodes stand on a heap (LinkedList.Memory); each function is a command that
--                   returns, ends the process, reads through a bad pointer, or uses its fuel up.
--                   The definitions are in LinkedList, LinkedList.Removal and LinkedList.Copying; the
--                   other children hold the proofs.
--   Sequence        the contract of that list, Graph ADT with BFS & Shortest Paths/List.h: a sequence
--                   of items and the place of a cursor. Sequence.Refinement and
--                   Sequence.Movement relate List.c to it.
--                   Sequence.Insertion and Sequence.Visit are the two loops that the clients share:
--                   the insertion from the back, and the walk from the front.
--   Lex             Lexicographic Sorting with Custom List ADT/Lex.c, main.
--   BfsGraph        Graph ADT with BFS & Shortest Paths/Graph.c. BfsGraph.Shortest is about the distances
--                   of BFS, BfsGraph.Parents about its tree, BfsGraph.Paths about getPath.
--   FindPath        Graph ADT with BFS & Shortest Paths/FindPath.c, main, over BfsGraph.
--   DfsGraph        Graph ADT with DFS and Strongly Connected Components/Graph.c.
--   Matrix          Matrix ADT with Sparse Matrix Operations/Matrix.c, in Matrix, Matrix.Equality,
--                   Matrix.Transform and Matrix.Arithmetic; Matrix.Row is about one row, and
--                   Matrix.Whole about a matrix.
--   RwLock          Concurrent Data Structures/rwlock.c, with its threads in RwLock.System.
--   Queue           Concurrent Data Structures/queue.c, with its threads in Queue.System.
--   JobServer       Multi-Threaded HTTP Server/httpserver.c, the table of locks by URI, with the threads
--                   that use it in JobServer.System; its handlers in JobServer.Handlers, and what they
--                   may do in JobServer.Locking.
--   FileMemory      Command-Line Memory/memory.c: the loops in FileMemory, the parser in
--                   FileMemory.Request, main in FileMemory.Program. FileMemory.Contract says what is
--                   relied on of read(2) and write(2).
--   HttpServer      HTTP Server/httpserver.c: parse_req and what it calls in HttpServer.Parser, with the
--                   expressions of HTTP Server/protocol.h; validate_req, handle_get and handle_put in
--                   HttpServer.Handlers; handle_connection in HttpServer.Connection.
--   Text            comparison of C strings and decimal numbers, for FileMemory and HttpServer.
--   Threads         threads by number, and how many of them are in a phase; RwLock, Queue and
--                   JobServer use it.
--   Arrays, Int     arrays as functions, and the integers that a counter below 0 needs.
--   Prelude         names of the library, Boolean tests, lists over the native numbers.
--   Examples        concrete inputs.
-- The graphs, the sorting program and the matrix call the list's functions, and are modelled over
-- Sequence. Functions keep their names, with words joined by underscores (insertBefore is
-- insert_before). A C pointer to a struct is the struct's value, given back changed.
--
-- Numbers: the values of the list, the vertices and the line numbers are natural numbers; int is
-- taken as unbounded, as no program here counts beyond its input, but for the limit of the
-- readers-writer lock, which a caller gives (RwLock.as_limit). INF, UNDEF and an index of -1 are
-- `none`. A double is a parameter of the matrix, with its operations. A size_t or ssize_t of the HTTP
-- server is a number below 2 ^ 64, with its wrap-around. A byte is a number.
--
-- Fuel: a loop over a list has the length of the list and one more round, which is the last test. The
-- loop of BFS has a round for each vertex and one more; a vertex is put into the queue when its color
-- turns from white. The calls of DFS_Visit that are open at once are on distinct gray vertices. The
-- loops of getPath follow parents, of which there are at most as many as vertices. copyList takes
-- the addresses that malloc returns as a list. execute_get has a round for each byte of the file and one
-- more, execute_set two rounds for each byte and one more.
--
-- Parameters: read(2), write(2), open and stat in FileMemory; the results of stat, access, open, recv,
-- write_n_bytes and pass_n_bytes in HttpServer (HttpServer.Put.IsPass says what is relied on of the
-- last); those of the system calls and of the connection library in JobServer.Handlers; what fscanf reads in FindPath; strcmp in Lex and JobServer; double in
-- Matrix; the results of malloc in LinkedList. malloc does not fail; pthread_mutex_lock gives the mutex
-- to one thread at a time, and pthread_cond_wait may return at any time.
--
-- Undefined behaviour is an outcome of its own: a read through NULL or freed memory, a write through
-- NULL, a read past the end of the full buffer of memory.c, and response_get_code(NULL).
--
-- Not modelled: output and files (printList, printGraph, printMatrix, fscanf, getline), the functions
-- that only release memory other than the list's, tests for a NULL handle, the copies of List.c in the
-- other directories, the texts of HTTP responses, sockets, the main functions of the HTTP servers, and
-- the programs FindComponents.c and Sparse.c.
pub mod Prelude
pub mod LinkedList
pub mod RwLock
pub mod Lex
pub mod Sequence
pub mod Arrays
pub mod Int
pub mod BfsGraph
pub mod DfsGraph
pub mod Matrix
pub mod Examples
pub mod Threads
pub mod Text
pub mod Queue
pub mod JobServer
pub mod HttpServer
pub mod FileMemory
pub mod FindPath
