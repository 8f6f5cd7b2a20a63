-- ===== src/Lib.antt =====
-- sysopy: a set of programs for a course on operating systems, one directory per lab. This library
-- models their own logic, translated from the C sources, and proves what the programs rely on.
--
-- The parts and how they interact:
--  * Task buffer (lab7/zad1/src/lab7ipc.c, .h): producers and consumers, processes of their own, share
--    a segment of 25 slots and two counters and three System V semaphores. TaskBuffer holds the
--    segment and the critical sections of put_task and get_task (put_body, get_body) and a run of
--    calls one after another (run). TaskBuffer.Delay says which queue a segment stands for,
--    TaskBuffer.Slots and TaskBuffer.Runs what runs of calls do, TaskBuffer.Objects is init_ipc and
--    cleanup on the objects of the system, and TaskBuffer.Process the processes: a step for every
--    access to a semaphore or to the segment, with the invariant (Process.Counts, Process.Moves) and
--    its consequences (Process.Safety).
--  * Primality test (lab7/zad1/src/consumer.c): Prime holds prime and its loop on fuel, Prime.Correct
--    what it decides. n + 1 rounds of fuel are enough, since the divisor grows in every round and
--    its square passes n.
--  * Time stamps (lab7/zad1/src/common.c, the same in labs 6 to 10): TimeFormat holds format_hour and
--    get_timestamp_with_millis as lists of bytes, TimeFormat.Digits how they read back.
--  * Readers and writers (lab9/zad2/src/rw.c): ReadersWriters holds the threads as a step for every
--    access to a semaphore or to the array, ReadersWriters.Counts the invariant, Steps its
--    preservation and Safety the consequences.
--  * Dining philosophers (lab9/zad1/src/main.c): Philosophers holds the five threads as a step for
--    every call on a mutex or condition variable and every access to a status; Weights the invariant,
--    Moves, Steps and Signal its preservation, Decide, Safety and Progress the consequences.
--  * Record sorter (lab2/zad1/src/bubble_sort.c, bubble_sorter.c): RecordSort holds the bubble sort over
--    the operations that it is given, RecordSort.Interface what they promise, Pass and Sorted the proof
--    for any that do, RecordSort.Files the operations by system calls and by the C library on a file
--    of bytes, Files.Bytes, Files.Swap and Files.Laws that they keep the promise.
--  * Address list (lab1/zad1/src/list_funs.c, list_structs.h): AddressList.Memory holds the nodes and
--    the commands on them, Functions and Sort the functions of list_funs.c as commands on a heap. A
--    command ends, faults on NULL or a freed node, or runs out of fuel. Chain says which list a heap
--    holds and what it is for a command to end, Order what the tests by strcmp mean. Append, Remove
--    and Find hold the results on the small functions; Four and Partition the loop of the sort,
--    Permute, Cells, Join and Sorted what it keeps, Quicksort, Total and Endless when it ends. A loop
--    has one round of fuel more than the list has nodes, and so has the nesting of the sort.
--  * File locks (lab2/zad3/src/file_lock.c): FileLock.Text holds parse on the bytes of a line, with the
--    bytes that memory happens to hold as arguments, FileLock.Locks try_lock and print_locks on the
--    locks of a file, and FileLock.Session the loop of main, which tries the command of each line.
--    Reads, Words and Blanks say which lines are commands, Holds which commands are refused, Effects
--    what the others do to the file, and Follows relates a session to what its commands promise.
--  * Message server (lab6/zad1/src/server.c): MessageServer holds the accepting thread and the loop that
--    passes messages on, a step for every access to the table of queues or to the count of clients;
--    Slots the invariant of the search for an empty slot, Accepts what becomes of the count.
--  * Datagram chat server (lab10/zad1/src/server.c): DatagramChat holds the two tables of clients and
--    what one datagram does to them; Find, Pass, Drop and Clients hold the lemmas on the searches, on
--    the copies sent, on the clients dropped and on the sender's slot, Relay the results.
--  * Searching threads (lab8/zad1a/src/main.c): SearchThreads holds the threads as a step for every
--    access to the file, the mutex and the requests to cancel, Passes what a step keeps, Search what
--    they have looked at.
--  * Stream chat server (lab10/zad2/src/server.c): StreamChat holds the table of sockets, the set and
--    the bound that select gets, and the body of the loop for one slot; Slots the lemmas on the table,
--    Watch the invariant and Copies to whom a message goes.
--  * Directory counter (lab5/zad1/src/main.c): DirectoryCount holds the lines that the first process
--    writes and the two processes that read them, as functions on the bytes of a pipe; Counts says
--    what each makes of whole lines, Printed what is printed. A process that reads has one round of
--    fuel more than there are lines.
--  * Directory walker (lab2/zad2/src/file_tree_crawler.c): TreeCrawler holds traverse_recursively on a
--    tree of entries with its path buffer, compare_access and verify_access_template; Listing says
--    what is printed and looked at, Access which files a template lets through.
--  * Common: the native numbers, tests into Bool, lists by position, C strings, the integers, and
--    families of processes with weights that are summed.
--
-- Integers: an int of the source that is never negative is a natural number. The counter of the
-- segment can be negative as far as its type goes, so it is an integer. No computation comes near
-- the bounds of an int: counters are at most 25, divisors at most 101, times below 60, and a file to
-- sort is taken to be shorter than 2^31 bytes. The exception is the number that a user types in for
-- lab2/zad3/src/file_lock.c: atoi is undefined for one that is no int, and so is the model's result.
--
-- System calls are no code of the repository. semop, sem_wait, sem_post and the pthread calls are
-- steps with the condition under which POSIX lets them return, and calls that fail end the program
-- in the source, so that no step follows. What shmget and semget grant is an argument, and so is
-- what the clock reads, what accept and recv return, which sockets select names, what FD_CLR makes
-- of a set when it gets -1, which POSIX leaves open, what lies in memory behind a full buffer, and
-- what other processes do to a file between two calls of fcntl. A call of send is recorded, not what
-- becomes of it: one to a client that has gone can end the server by a signal, and no step follows.
-- Descriptors are taken to stay below FD_SETSIZE, as the usual limit on them has it. fcntl itself is
-- a function on the locks of a file. A datagram is its C string, so it is taken to fit the buffer
-- with its end. malloc is taken to have memory; what the memory holds is an argument where the
-- source reads it.
--
-- Not modelled: printing, sleeping, random numbers (any number is taken), signal handlers, the parts of
-- these programs that only call others, and the labs that are not named above.
pub mod Common
pub mod AddressList
pub mod DatagramChat
pub mod DirectoryCount
pub mod FileLock
pub mod MessageServer
pub mod Philosophers
pub mod Prime
pub mod ReadersWriters
pub mod RecordSort
pub mod SearchThreads
pub mod StreamChat
pub mod TaskBuffer
pub mod TimeFormat
pub mod TreeCrawler
