-- ===== src/Lib.antt =====
-- Verification of the programs of the operating-systems course repository: p1 (an expression
-- compiler), p2 (user threads), p3 (a word tree in storage class memory with a shell), p4 (a
-- key-value database on a log) and p5 (a cpu meter).
--
-- Common holds the shared names: Boolean tests, lists and integers over the native numbers,
-- decimal numbers as they are printed, and C strings with strcmp and isspace.
--
-- Avl is p3/avl.c: the node and state structs, the rotations, update, avl_insert, avl_exists and
-- avl_traverse. Avl.Balance is on the rotations and the balance, Avl.Rotate on the rotations and
-- the order of the words, Avl.Entries on the sorted list of the words, Avl.Insert on update and
-- Avl.Words on the public calls. A null pointer that would be followed is the fault `none`. The
-- region of p3/scm.h is a parameter (p3/scm.c is empty): a record of the two allocation calls,
-- which may fail at any time. Counters wrap at 2 ^ 64 as in C. The asserted preconditions on
-- arguments, the freeing of memory and the trace output are not modelled.
--
-- Index is p4/index.c: open addressing with linear probing on 64-bit hashes. Index.Hash is the
-- hash function, Index.Probe and Index.Table are one table, Index.Rehash and Index.Grow its
-- growth, and Index.Total is on the end of the probes and the exit behind them, Index.Bounds on
-- how far a table grows. The loops recur on the rounds left, which start at the capacity as in C.
-- A reference to an offset is its position. The comparison of the load with 0.70 is on fractions,
-- which agrees with the doubles below 2 ^ 49 slots.
--
-- Parser is p1/parser.c from expr_primary to top, on the tokens of p1/lexer.h. The position `i`
-- of `n` is the list of the tokens that are left, `double` is a parameter, and whether an
-- allocation succeeds is a function of the number of nodes before it. The functions recur on
-- fuel, of which 4 * n + 4 suffices for n tokens. Parser.Grammar is the grammar of the comments,
-- Parser.Steps gives one step of each function, Parser.Parsed and Parser.Round what one call and
-- one round of a loop promise, Parser.Promise, Parser.Loops and Parser.Total the induction on the
-- fuel. Parser.Stops is on the ends of the loops, Parser.Accepts on the texts of the grammar,
-- none of which is refused. The messages (with the flag `stop`) are not modelled. The ids are
-- natural numbers: there are at most as many as tokens, so that they fit into an int below 2 ^ 31
-- tokens.
--
-- Codegen is reflect, generate and sigmoid of p1/main.c: a printed line is a declaration, and
-- Codegen.exec is what the lines do in C, where a variable that is declared twice or used before
-- its declaration does not compile. Codegen.Exec is on sequences of lines, Codegen.Correct joins
-- the parser to the generator. The arithmetic of doubles, exp and what %f prints for a constant
-- are parameters; a text such as `inf`, which is no constant of C, does not compile. The value of
-- a tree is that of its own constants, and the theorems are on texts whose numbers are printed
-- with their values.
--
-- Lexer is p1/lexer.c: the array of tokens, which is kept with the last token first, mktoken, and
-- one round of tokenize after the other. strtod is a parameter, the value and the number of bytes
-- it takes; isspace is that of the C locale. The fuel is the length of the text, since a round
-- takes at least a byte. Lexer.Array is on mktoken, Lexer.Reads on one round, Lexer.Whole on the
-- text.
--
-- Compile is parser_open of p1/parser.c, which runs the lexer and then the parser.
-- Compile.Correct joins both to the generator. Jit is p1/jitc.c and main of p1/main.c: the calls
-- of the system and of the linker are a record, on a state of the files, and a pointer to freed
-- memory is a value of its own. Jit.Whole is on main, from the text to the printed number, with
-- the C compiler as the hypothesis IsToolchain.
--
-- Shell is shell_strtrim of p3/shell.c, with positions for the pointers.
--
-- Editor is read_line of p3/shell.c, on the bytes that the terminal sends, with the slots of the
-- history; a write behind the end of a slot or of the history is an outcome of its own.
-- Editor.Cursor is on the keys as operations on the text on both sides of the cursor, Editor.Keys
-- on the bounds of the slot and on where it is overrun, Editor.Session on a whole line and the
-- history, Editor.Bytes on the bytes that a line takes. What is drawn on the screen is left out.
--
-- Commands is the commands of p3/main.c on the word tree of Avl, with what they print as a list
-- of messages, and shell_fnc, which finds the command of a line. The files, as the strings that
-- fgets reads, and the two sizes of the region are parameters. Commands.Valid is on the word
-- tree, Commands.Dispatch on the choice of the command. Console is the loop shell of p3/shell.c
-- over Editor and Commands, where the command writes into the slot of its line; its fuel is the
-- number of rounds, and a round takes at least a byte. Console.Runs is on whole runs, as rounds
-- from the start.
--
-- Session is main of p3/main.c: the command line, avl_open of p3/avl.c and the shell. The regions
-- of the files at the start are a parameter, with what p3/scm.h says of a truncated one as a
-- hypothesis; what is written into the files and the closing of the tree are not modelled.
-- Session.Order is on the command line, Session.Runs on whole runs.
--
-- Threads is the list of threads of p2/scheduler.c: thread_candidate, schedule, the yield and
-- what scheduler_create does to the list, with positions for the pointers and a mark on freed
-- memory. The search recurs on fuel, of which the number of threads is enough. Threads.Start is
-- on the state that scheduler_execute finds. The jumps between the stacks are left out, since C
-- does not define a jump into a function that has returned.
--
-- Device is p4/device.c: the geometry, device_open with its error paths, and the calls that read
-- and write. The answers of the system calls are arguments or parameters. Device.Geometry is on
-- the opened device.
--
-- Kvraw is p4/kvraw.c, the log of records with a packed header of 16 bytes, lowest byte first.
-- The log file system of p4/logfs.h is a parameter (p4/logfs.c is empty): a record of its two
-- calls, each of which may fail at any time, and the hypothesis IsLogfs on the bytes that a log
-- holds. Kvraw.Header is on the header, Kvraw.Append on where the records stand, Kvraw.Lookup and
-- Kvraw.Roundtrip on what lookups give.
--
-- Kvdb is p4/kvdb.c over Kvraw and Index: chain_lookup, mutate and the public calls. The loop
-- over a chain recurs on fuel, the offset plus 1, since every record links to an earlier one.
-- Kvdb.Chain is on that loop, Kvdb.Store on the map from keys to values that a database stands
-- for, Kvdb.Mutate, Kvdb.Calls and Kvdb.Answers on the calls as operations on the map,
-- Kvdb.Sequence on a change and the lookups behind it, Kvdb.Open on a new database, Kvdb.Bounds
-- on the sizes after some calls, and Kvdb.Exact on the calls where nothing fails.
--
-- Selftest is the tests of p4/main.c, as steps over a database, and Selftest.Random is mk_object
-- and read_write with rand as a parameter. Selftest.Steps is on one step; Selftest.Basic,
-- Selftest.Rewrite and Selftest.Filled are on the three tests, and Selftest.Objects on the keys
-- and values of the last. The printing, the timing and the closing of the database are left out.
--
-- System is p4/system.c, of which the other directories have copies. A sleep recurs on fuel, of
-- which the number of signals and one is enough. System.Sleep is on us_sleep, with what the
-- manual says of nanosleep as the hypothesis IsClock, and System.Align on memory_align.
--
-- Meter is p5/main.c: what it uses of strstr and sscanf, cpu_util, and the loop of main over what
-- signal, fopen and fgets answer. A number is read as by the C library of Linux, which stops at
-- the largest of 64 bits and keeps the low 32. Meter.Lines is on the numbers of a line,
-- Meter.Runs on what is shown. The arithmetic of doubles is a parameter.
--
-- Not modelled: the input and output, the terminal, and the jumps between the threads of p2.
pub mod Avl
pub mod Codegen
pub mod Commands
pub mod Common
pub mod Compile
pub mod Console
pub mod Device
pub mod Editor
pub mod Index
pub mod Jit
pub mod Kvdb
pub mod Kvraw
pub mod Lexer
pub mod Meter
pub mod Parser
pub mod Selftest
pub mod Session
pub mod Shell
pub mod System
pub mod Threads
