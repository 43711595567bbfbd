-- ===== src/Goroutine.antt =====
-- utils/helpers.go: `Go`.
use edgedelta_lambda_extensi.Common.{◌++◌}
use edgedelta_lambda_extensi.Text.Bytes.{Bytes, codes}

-- What the function of a goroutine comes to; a panic has the text of its value.
pub data Run : Type 0 where
  returned : Run
  panicked : Bytes → Run

-- What the goroutine does to the process: a panic that is not recovered ends it, with its message.
pub data Exit : Type 0 where
  goes_on : Exit
  ends : Bytes → Exit

-- The deferred function recovers the panic, and `log.Panicf` panics again. `stack` is `debug.Stack()`.
unfoldable pub go : Bytes → Bytes → Run → Exit
go stack name returned = goes_on
go stack name (panicked error) =
    ends (name ++ (codes " panicked with err: " ++ (error ++ (codes ", stack trace:\n" ++ stack))))
