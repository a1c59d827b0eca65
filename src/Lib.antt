-- ===== src/Lib.antt =====
-- A verification library for the C programs of FUND-120: the string queue, the console, the
-- allocator and the accounting of memory of the C Programming Lab, the puzzles of the Data Lab and
-- their test program, and the libraries behind the GETFILE server and client of the
-- client-server lab.
--
-- The parts and the files that model them:
-- - Prelude and Memory: what the other files share. Memory is the heap of a C program: objects at
--   addresses, the addresses that malloc will return, and commands that load, store, allocate and
--   free. An access outside a live object is the result `fault`, a call of exit the result `exit`,
--   a loop that runs out of its fuel the result `out_of_fuel`. The theorems exclude each of these,
--   or say when it comes.
-- - Queue: FUND-120/0_C_Programming_Lab/cprogramminglab-handout/queue.c and queue.h. A function of
--   the model has the name of the C function and follows it statement by statement; list_ele_t is
--   the record Ele, queue_t the record Queue, whose size wraps at 2 ^ 32. The strings stand in char
--   arrays of the heap with their terminators. Segment is the predicate that a list of strings
--   stands between two pointers. Insert, Remove, Reverse, Free and New are about the operations,
--   Stale about a tail that is left behind.
-- - Report: FUND-120/0_C_Programming_Lab/cprogramminglab-handout/report.c, the accounting of memory
--   of the lab's test program. Steps are the runs of a program that frees what it has allocated,
--   Invariant what the counters say in each of them.
-- - Harness: harness.c of the same lab, the malloc and free of its test program, with the doubly
--   linked list of the blocks that are allocated. Links is that list in memory; Malloc, Release and
--   Misuse are about test_malloc, test_free, and test_free of a block that is not allocated. The
--   real malloc below it is that of Memory.
-- - Console: console.c and console.h of the same lab. Its own functions are parse_args, with Split
--   about the words that it finds; Input is readline and the stack of input files, Interpreter the
--   lists of commands and parameters and interpret_cmd with the commands that are built in, Run is
--   cmd_select and run_console, Init is init_cmd and the setters. A command that qtest.c registers
--   is an operation of its own on the program's state; Host is what strtol, open, set_logfile and
--   select do.
--   Total joins readline to parse_args.
-- - Qtest: FUND-120/0_C_Programming_Lab/cprogramminglab-handout/qtest.c, the test program of the
--   queue. A command is an operation of the console on the state Tester; Commands has them under
--   their names in the source, Setup what main does. guarded is exception_setup(true) around a call
--   of the queue's code: a fault or an endless loop there is the signal after which the command
--   goes on. Insert, Remove, Free and Size are about the commands that are run on a well-formed
--   queue.
-- - Exercises: FUND-120/0_C_Programming_Lab/TheCProgrammingLanguage/ch1, the programs on text. A
--   program is a function on the bytes that getchar delivers: Tabs has detab and entab of
--   ex1_20_21.c, with Columns about where the characters of their output stand; Words has wordCount
--   and printWordPerLine of ch1_examples.c; Lines has ex1_19.c, with Backwards about it.
-- - Calculator: FUND-120/0_C_Programming_Lab/TheCProgrammingLanguage/ch4/ch4_header_file, the
--   calculator for postfix expressions: getch.c, getop.c, stack.c and main.c. Tokens is about what
--   getop reads, Postfix about the value of an expression.
-- - Puzzles: FUND-120/1_DataLab/datalab-handout/bits.c on 32-bit words, and Reference the answers
--   that tests.c gives. Bits has the laws of the bit operations; Logic, Compare, Odd and Width are
--   about the puzzles. bitXor is bit_xor_puzzle; the other names are those of the source, in
--   lower case.
-- - Btest: gen_vals, test_function and run_tests of FUND-120/1_DataLab/datalab-handout/btest.c, the
--   program that compares the puzzles with their references. Bounds is about the array of the test
--   values, Verdict about the errors that are counted; Suite is the table of decl.c, with the
--   puzzles.
-- - Steque: FUND-120/4_ClientServerLab/mtgf/steque.c and steque.h, the queue of requests that the
--   server's threads share. Chain is the shape in memory, Deque the list that a client sees, and
--   Refine relates whole sequences of calls to it.
-- - Downloads: FUND-120/4_ClientServerLab/mtgf/gfclient_download.c, the client whose threads share
--   one steque. Move is a step of a worker, Step a step of any thread or of main; a state is reached
--   by any interleaving of them, and Spurious adds wake-ups without a signal. Counts, Invariant and
--   Preserve are what holds in each state; Safety, Progress and Measure are about the order of the
--   requests, about deadlock and about the end of a run.
-- - Content: FUND-120/4_ClientServerLab/mtgf/content.c, the table of the files that the server
--   offers. Strcmp is the order of its keys, Search its binary search, Load the reading of its
--   file.
-- - Getfile: the messages of FUND-120/4_ClientServerLab/gflib: the header that gfs_sendheader of
--   gfserver.c writes and the request that checkHeader reads, the request that gfc_perform of
--   gfclient.c writes and the header that it reads. Text has strstr, atoi and printf's decimals.
--   Perform is about the data that the client receives behind the header. The server's codes 200,
--   400 and any other are gf_ok, gf_file_not_found and the other statuses.
-- - Handler: FUND-120/4_ClientServerLab/mtgf/handler.c with gfs_send, gfs_sendheader and gfs_abort
--   of gflib/gfserver.c, and what gfserver_serve does with one request. Chunks is the loop that
--   sends a file, Serve the answer to a request, and Download puts the client of Getfile behind it.
-- - Workload: FUND-120/4_ClientServerLab/mtgf/workload.c, the paths that the client asks for in
--   turn; Rounds is about their order.
--
-- Fuel: q_free and q_reverse take one step for each element and one more to see the end, so the
-- length of the queue plus one is enough; steque_destroy likewise. content_get halves its interval
-- and runs on one more than the number of items. handler_get and gfc_perform run on one more than
-- the length of the file, since each round moves at least one byte. The loop of
-- test_howManyBits ends within 33 rounds, the search of test_free within the number of blocks,
-- and the loop of gen_vals over all ints within one round more than there are values. run_console
-- runs on fuel for its rounds and for the lines of a buffer; a file may make it open itself again
-- without end, so what is said of it holds for any fuel. The commands of the test program give
-- q_free and q_reverse the time before the alarm as their fuel. The threads of the client run
-- without fuel. entab fills a run of blanks on one more than its last column. The calculator takes
-- one round for each token and one for EOF. The other loops are structural recursion.
--
-- Parameters: what open, fopen, fgets, fscanf, pread, read and write deliver, and qsort, which is
-- only known to sort; what select answers the console; rand and pow of btest.c; what malloc, calloc and realloc return; the
-- arithmetic of double for the calculator; for the test program the time before the alarm, strtol,
-- and the heap that an interrupted call leaves.
--
-- Not modelled: printed output and the set-up of sockets; how harness.c jumps out of
-- a signal; the messages and timers of report.c; the select of console.c over descriptors of a
-- network; the threads of the server and the files of the client; the puzzles of the Data Lab on
-- floats; the other exercises, most of which only print.
pub mod Btest
pub mod Calculator
pub mod Console
pub mod Content
pub mod Downloads
pub mod Exercises
pub mod Getfile
pub mod Handler
pub mod Harness
pub mod Memory
pub mod Prelude
pub mod Puzzles
pub mod Qtest
pub mod Queue
pub mod Report
pub mod Steque
pub mod Workload
