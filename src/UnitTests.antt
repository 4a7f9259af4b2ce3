-- ===== src/UnitTests.antt =====
-- The unit tests of the repository, ut_parser.c, ut_lexer.c and ut_common.c: their harnesses and
-- their tables of test cases.
pub mod ParserTests
pub mod LexerTests
pub mod CommonTests
