-- ===== src/Lib.antt =====
-- The programs of C380-1Code: valws379 (Assignment03), which prints the working set size of a
-- stream of memory references; notapp (Assignment02), a server that shows the file events of its
-- observer clients to its user clients; and the memory layout scanner (Assignment01).
--
-- Parts. A window set (windowset.c) keeps the last `window_size` references in a queue (queue.c) and
-- the pages that they touch in a hash table (hashtable.c), whose buckets are linked lists
-- (linkedlist.c) or, above `SPLIT_SIZE` pairs, tables of the next level; a table that falls below
-- `MERGE_SIZE` pairs goes back into a list. The size that the program prints is the table's count.
--
-- The server of notapp is told what to do by its arguments (argparser.c). One thread for each client
-- (server.c) writes what an observer sends into a slot of the shared entries, or sends all the
-- entries to a user; `output_sorter` leads them through the states DONE, SORTING and READING
-- (server_data.c), and a timer starts its rounds and releases it when it is stuck. Strings go over a
-- socket with their size (notapp_base.c) to the user client (user_client.c). An observer client
-- (observer_client.c) sends a message for each event of inotify, of which the server makes a text.
-- The scanner (memlayout.c) tries every page of the address space and merges neighbours into
-- regions.
--
-- Files.
--   Base: the library names, words of 64 bits, lengths, sums over buckets.
--   Valws/Common: Assignment03/valws379_base.c; `get_power_of_two` in Common/Power.
--   Valws/LinkedList: Assignment03/linkedlist.c. A list is its `count` field and its nodes in order.
--     LinkedList/Contents has the views of a list, LinkedList/Operations the laws.
--   Valws/Hashtable: Assignment03/hashtable.c. A table pointer is a value of `Table`, NULL included.
--     Hashtable/Contents has the invariant and the abstract view: a function from addresses to
--     numbers of references. Place, Split, Insert, Buckets, Put, Drain, Merge and Delete prove one
--     step each, Root the theorems for the table that a client holds. Shallow has the tables of at
--     most two levels, which Flat, Sparse and Shrink show to stay so.
--   Valws/Queue: Assignment03/queue.c on a heap of cells, Queue/Memory; Queue/Chain has the doubly
--     linked chains, Queue/Refinement the sequence that a queue stands for, Queue/Destroy its
--     end.
--   Valws/WindowSet: Assignment03/windowset.c, its static variables as one record. WindowSet/Pages
--     has the multiset of pages, Loops the two loops, Insert one insertion, Run whole streams,
--     Touched the pages of one access. Crowd counts the pages that agree in their last digits,
--     Levels keeps the table shallow, Sliding puts both together for a window that slides.
--   Valws/Lines: the tests on lines of valws379_base.c.
--   Valws/Program: Assignment03/valws379.c, `main` and its loop; Program/Loop the report that
--     the loop prints, Reports the output for streams that fit into the window, Slides for longer
--     ones.
--   Valws/Tests: runs, and the theorems at concrete inputs.
--   Notapp/Args: Assignment02/argparser.c; Args/Accepts has the command lines that make a server.
--   Notapp/Main: Assignment02/notapp.c.
--   Notapp/ServerData: Assignment02/server_data.c. A function that locks a mutex is one step.
--     ServerData/Slots has the invariant of the slots, Timer the lock detection, Order the
--     comparison for the sort, Sorting the sort, Reports what users and logfile are told.
--   Notapp/Server: the threads of Assignment02/server.c, with the steps of `add_entry`,
--     `unregister_observer` and `send_entries`, as functions on one system, and schedules as lists
--     of the threads that take a step. Server/States has the data, Frames has what a thread leaves
--     alone, Phases the server state, Writers the writer count, Frozen the entries in READING,
--     Sprint the release of a lock, Delivery the way of an
--     observer's entries to the users, Race a writer that is not counted in time.
--   Notapp/Wire: the strings and numbers of Assignment02/notapp_base.c as bytes.
--   Notapp/Message: the message of an observer client, notapp_base.h, and its bytes; Message/Fields.
--   Notapp/ObserverClient: Assignment02/observer_client.c; ObserverClient/Events has the events of
--     inotify in the buffer, Sends the inner loop, Rounds the client from its start to its end.
--   Notapp/EventText: the text of an event in Assignment02/server.c; EventText/Digits its numbers,
--     EventText/Bounds its length.
--   Notapp/ObserverThread: what `observer_thread` reads, and how `do_server` takes a connection;
--     ObserverThread/Receives has one message, RoundTrip the way from the client to the entries.
--   Notapp/Daemon: `daemonize`; Daemon/Descriptors the files that a daemon holds.
--   Notapp/DoServer: `do_server`; DoServer/Starts the threads that it starts.
--   Notapp/UserThread: what `user_thread` reads and sends; UserThread/Talks has its talk with a
--     client.
--   Notapp/UserClient: Assignment02/user_client.c; UserClient/Shows what it shows of the reports.
--   Notapp/Journey: all of these together, from a file event to a user's screen.
--   MemLayout: Assignment01/memlayout.c; MemLayout/Regions has the invariant of the scan, Scan the
--     whole of it, MemLayout/Print what is printed of it.
--   Notapp/Tests, MemLayout/Tests: the theorems at concrete inputs.
--
-- Bounds and fuel. `unsigned long long` is a number below 2 ^ 64 with its wrap-around written out.
-- The operations of the table take 16 levels of fuel: a level uses four of the 64 bits of an
-- address, so below level 15 two different addresses cannot share a bucket and no split happens.
-- `get_power_of_two` takes 65 rounds, one more than the bits of a word. The loops that pop a list
-- take one round more than the list has nodes. That the fuel is enough is part of the theorems,
-- which state that the operations return.
--
-- The scan takes as many rounds as there are pages in 2 ^ 32 bytes and one more: after the last page
-- the address wraps to 0 and the loop stops.
--
-- The loop of a user client takes as many rounds as there are reports, and one more to see the end,
-- that of `observer_thread` as many as there are messages, and one more. The inner loop of an
-- observer client takes one round more than there are bytes, of which each event has at least 16.
-- A number is printed with at most 20 digits, which are enough for 64 bits.
--
-- An `int` is its 32 bits; the increment of the writer count beyond 2 ^ 31 - 1 is a fault, and so is
-- a shift by an exponent that is not below 64, which only page size 0 has.
--
-- Granularity. In Notapp/Server a step is one statement on shared data or one section under a mutex;
-- an increment outside of a mutex is taken to be one step.
--
-- Parameters. `malloc` returns a pointer that is not NULL and not in use. `float` and `strtof` are
-- a type and a function. Whether an address can be read or written is up to two tests. The
-- functions by which valws379 reads its arguments and lines are a record. `qsort` is any function
-- on arrays in the theorems about the threads, and one that keeps its documented promise in those
-- about the sort and what users see. A `read` from a socket gets all that it asks for when it has
-- been sent, and nothing when the connection is closed; what memory holds behind the bytes read is
-- arbitrary. What a `read` gets from inotify is an argument, and so are the bits of the masks. The
-- system calls of `daemonize` are the operations of an interface: `open` and `dup` take the lowest
-- free descriptor, no descriptor is as large as `getdtablesize`, and the other calls leave the
-- files of the process alone. What `fork` and the calls that set up the server's socket return are
-- arguments.
--
-- Not modelled: the functions that only free memory, but for `destroy_queue`; messages about errors
-- and usage, and debug output; of Assignment02 the handler of signals, and the calls that connect the
-- clients, of which the results are arguments.
pub mod Base
pub mod Valws
pub mod Notapp
pub mod MemLayout
