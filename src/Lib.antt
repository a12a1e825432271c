-- ===== src/Lib.antt =====
-- The sensor gateway of Project/: sensors send readings over TCP to a connection manager, which puts
-- them into a shared buffer. A data manager takes them out, keeps the last five of every sensor of a
-- room map, and reports rooms that are too hot or too cold; a storage manager takes them out and
-- writes them to a database. The three run as threads of one process, and report through a pipe to
-- a process that writes the log. The connection manager and the data manager keep their clients and
-- sensors in doubly linked lists.
--
-- Memory     the C machine: a store of heaps, one for each type of object, and commands over it
--            that return, fault or run out of fuel. NULL is the address 0, and a read through NULL
--            or through an address that holds no object is a fault. What `malloc` returns is an
--            argument of the function that calls it. Cells has the lemmas on heaps, Returns total
--            and partial correctness of a run, Binary the layout of values, Stream files.
-- Sbuffer    Project/sbuffer.c: init (sbuffer_init), free_all (sbuffer_free), remove and insert.
--            Queue says what a well-linked buffer is, Step what one call does, Refine what a
--            sequence of calls does, Readers how the two readers share them. Consumer is the loop by
--            which the data manager and the storage manager read the buffer. Interleaved has the
--            statements of remove and insert as steps that the three threads take in turn: Alone is
--            about one thread, Ends about how long a call takes, Refused about why an insertion
--            fails, Races about overlaps that go wrong, and Layout, Disjoint, Finished and Completed
--            about a removal and an insertion that do not.
-- Dplist     Project/lib/dplist.c: Defs has the state (struct dplist, struct dplist_node) and the
--            functions that read it, Update those that change it, each named as in the source
--            without `dpl_`; free_list is `dpl_free`. Chain says what a well-linked list is. Read,
--            Insert, Order, AtIndex, InsertAt, Front and Remove have the theorems, Relink, Slot
--            and Sorted the lemmas on sorted insertion. The callbacks are commands over the same
--            store.
-- Config     Project/config.h: the reading, and the arithmetic on `double` as an interface. Layout
--            has the bytes of readings, Pipe the function write_pipe, Inits what the threads hand to
--            the managers and the three `init` functions.
-- Datamgr    Project/datamgr.c: the callbacks of its list, handle_reading for the body of the loop
--            of datamgr_parse_sensor_files (record_reading is what it does to a sensor), the
--            getters and datamgr_free. RoomMap has the loop that loads the map, Loop the function
--            as a whole. Window is about the running window, Frozen about what is reported of a full
--            one, Crash about what becomes of a reading.
-- Tcpsock    Project/lib/tcpsock.c: Defs has the state (struct tcpsock, the strings, and the calls
--            made of the operating system), Open the functions that open and close, Transfer those
--            that use an open socket, each named as in the source without `tcp_`. Lifecycle is
--            about opening, Closing about closing, Getters about the getters, Guards about sockets
--            that are not bound and about codes.
-- Connmgr    Project/connmgr.c: the callbacks of the list of clients, and take_out, the loop of
--            connmgr_listen that takes a descriptor out of the polled array. Poll has the state of
--            connmgr_listen, Visit the body of its inner loop, Listen the rest; Free is connmgr_free.
--            Compact is about take_out, Received about readings and stopped clients, Mutex about
--            the lock on the stop signal, Counted, Rounds and Listening about the size of the array;
--            Stable and Slots have their lemmas.
-- SensorDb   Project/sensor_db.c: Sqlite is the interface of the database, Defs has the functions,
--            FromFile insert_sensor_from_file, Consume the loop over the shared buffer, Connect
--            what init_connection leaves open.
-- FileCreator  Project/file_creator.c; Recorded is about the file of readings.
-- SensorNode  Project/sensor_node.c, the simulated sensor; Sent is about what it sends.
-- Gateway    Project/main.c: Main is `main` by the calls that it makes, Log the process that writes
--            the log, Threads has data_mgr, Storage stor_mgr, which calls the clean-up of the other
--            managers, ConnThread conn_mgr, and Delivery follows a reading from the socket to the
--            database.
-- Exercises  B1/ and B2/: Signals is the interface of the sets of signals, PrintSet has print_sigset
--            and print_set_bin, Masks the programs that block signals, Children those that fork.
-- Prelude    tests, lists and integers over the native numbers, and what is taken of the libraries.
--
-- Where the source does not compile, the model takes what it means to say, and a comment says so:
-- the misspelt type names, `id` for `pos` in dpl_remove_at_index, the field last_modified, the
-- tests of a structure against NULL, SQLITE_OPEN for SQLITE_OK. Loops over nodes take fuel, and one
-- more than the number of nodes is enough for each that ends; a theorem on a loop has that bound as
-- its hypothesis. The loops over the shared buffer are proved to run out of any fuel. Numbers of
-- the source are not bounded here, where no cut is written out: identifiers and positions are
-- natural numbers, an index is an integer.
--
-- Left out of functions that are modelled: that `malloc` and `realloc` of the polled array fail (it
-- is a list that grows), the mutex that datamgr.c locks around the stop signal, the storage of the
-- `struct sbuffer` itself, lines of the room map that cannot be read, and identifiers below 0 on the
-- command line of sensor_node. The managers report events; write_pipe, with its mutex, is in
-- Config.Pipe. insert_sensor passes an unset `buf` to `asprintf` where a statement fails; that is
-- read as `&buf`.
--
-- The threads are modelled one by one: each has the shared buffer to itself while it runs. The
-- source has no lock on it, and Sbuffer.Interleaved is about threads that run at the same time, each
-- in one call of the buffer: a statement is a step, and an assignment to two variables is two. The
-- steps are in one order that all threads see.
--
-- Not modelled: the exercises that only print (B1/File, B1/Static_Lib, and test.c and BT3_SEGFAULT of
-- B2/Process), handlers of signals that only print, and texts of messages but for the log.
pub mod Prelude
pub mod Memory
pub mod Sbuffer
pub mod SensorDb
pub mod SensorNode
pub mod FileCreator
pub mod Gateway
pub mod Dplist
pub mod Config
pub mod Connmgr
pub mod Datamgr
pub mod Exercises
pub mod Tcpsock
