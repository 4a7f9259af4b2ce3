-- ===== src/Lib.antt =====
-- embedjson, a SAX-style JSON parser in C (lexer.c, parser.c, common.c), with its
-- command-line tool and its unit tests, modelled and verified.
--
-- The program. `embedjson_push` (parser.c) hands a buffer to `embedjson_lexer_push` (lexer.c), which
-- cuts it into tokens and calls a family of handlers `embedjson_token*`. The handlers of parser.c run
-- a pushdown automaton over a stack of open brackets, one bit each, and call the functions that the
-- user supplies (`embedjson_null`, `embedjson_int`, ...). `embedjson_finalize` ends the input.
-- Errors are reported by `embedjson_error_ex`, whose result is the result of the call.
--
-- The files.
-- - Config is config.h.in and the macros of common.h. A build of the library is a value of `Config`;
--   each `#if` is a test of one of its fields.
-- - Common has the error codes and `embedjson_error_ex` of common.h and common.c. An `Outcome` is the status
--   and the state that a C function leaves, or `fault` where C leaves the behaviour undefined, such
--   as an access out of bounds; its `>>=` is the macro RETURN_IF. Messages
--   is `embedjson_strerror`.
-- - Client holds the user's functions, a parameter of the whole model over the user's own state. They are
--   taken to change nothing of the parser but its user data; `embedjson_stack_overflow` may also
--   replace the stack.
-- - Lexer is lexer.h, and below it lexer.c. Encoding, Utf8 and Double are parts of the loop's body,
--   Step and its children the `case`s of the loop, Push the loop, `embedjson_lexer_push` and
--   `embedjson_lexer_finalize`. The lexer is a function of a `Sink`, the handlers that it calls. The
--   type `double` is a parameter with its operations and literals (`Doubles`). Utf8/Rfc3629 is the
--   syntax of UTF-8 that the proofs compare the validation with. Push/Written says which calls a text
--   of JSON lexemes stands for, and Push/Reads is the proof about it, from those about single
--   lexemes in Push/Lexemes, Push/Words, Push/Runs, Step/Text/Plain and Step/Number.
-- - Parser is parser.h, and below it parser.c. Stack is the stack of brackets, Handlers the handlers
--   (`embedjson_token` and, in children, those of numbers and strings), Api the `Sink` that they make
--   up with `embedjson_push` and `embedjson_finalize`. Automaton is the automaton that
--   doc/syntax-parser-fsm.dot draws, which the proofs compare the handlers with. Invariant is what
--   the proofs assume of a parser: its state fits its stack. Json has the JSON values, their lexemes and
--   callbacks, and the proof that a written value is accepted. Safety proves that the handlers keep
--   the contract that Lexer/Push/Contract states between the lexer and its handlers, so that whole calls
--   keep lexer and parser in step and fault nowhere.
-- - Lint is embedjson_lint.c: its callbacks, and `main` below it. `realloc`, and the bytes that `read`
--   delivers, are parameters. Exit compares the end of `main` with the calls of the library on the bytes.
-- - UnitTests has ut_parser.c, ut_lexer.c and ut_common.c: their harnesses and tables of test cases.
--   `exit` is a status that the library hands back at once.
-- - Tests has a client that records its calls, documents run through the model, the unit tests of the
--   repository run on the model, and the theorems at concrete inputs.
--
-- Numbers. A byte is a natural number below 256; `char` values are kept as bit patterns.
-- `embedjson_size_t` and `unsigned long long` wrap at 2^64, `unsigned short` at 2^16, as on x86_64.
-- `int_value` is never negative while the lexer holds it, so it is a natural number.
-- Where `10 * lex.int_value + *data` exceeds EMBEDJSON_INT_MAX in a signed `embedjson_int_t` of 32 bits
-- or more the behaviour is undefined, a fault; narrower types are promoted to an `int` of 32 bits. In
-- an unsigned type `0 - int_value` wraps around.
--
-- Fuel. `data--` makes the loop read a byte again. The model allows two iterations for each byte:
-- the first leaves the lexer in a state whose `case` never steps back. All else is structural recursion.
--
-- Not modelled: what EMBEDJSON_DEBUG and the unit tests print, the comparison of the old and the new
-- lexer by `embedjson_memcmp` before the lexer is written back (it saves a write of equal bytes), and
-- the scripts that build and amalgamate the library, which hold none of its logic.
pub mod Base
pub mod Config
pub mod Common
pub mod Client
pub mod Lexer
pub mod Parser
pub mod Lint
pub mod UnitTests
mod Tests
