-- ===== src/Tests/Messages.antt =====
-- The theorem about the messages of common.c at one error code.
use embedjson.Base.{◌≡◌, some}
use embedjson.Common.Messages.Numbers.{number_in, strerror-number}
use embedjson.Common.Messages.{strerror}
use embedjson.Common.{int_overflow}

strerror-number_example : number_in (strerror int_overflow) ≡ some 35
strerror-number_example = strerror-number int_overflow
