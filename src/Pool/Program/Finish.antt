-- ===== src/Pool/Program/Finish.antt =====
-- What `main` of src/MainMultiProc.cc does around either loop.
use simple_http_serv.Prelude.{Bool, true, false, Run, ok, fault, ◌>>=◌, List, [], ◌++◌}
use simple_http_serv.Prelude.Int.{ℤ}
use simple_http_serv.Sys.{Action, Ending, waiting}
use simple_http_serv.Pool.Program.{close_behind}

-- What comes behind the loop, and what came before it.
abbrev pub finish :
    {S : Type 0} (first setup : List Action) (listenfd : ℤ)
    → Run (Ending × S × List Action)
    → Run (Ending × List Action)
finish first setup listenfd r = do
  (ending, more) ← (do (ending, s, more) ← r; ok (ending, setup ++ more))
  ok (ending, first ++ more ++ close_behind ending listenfd)

unfoldable pub is_waiting : Run (Ending × List Action) → Bool
is_waiting (ok (waiting, actions)) = true
is_waiting _ = false

unfoldable pub asked : Run (Ending × List Action) → List Action
asked (ok (ending, actions)) = actions
asked (fault f) = []
