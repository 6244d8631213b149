-- ===== src/Pool/Loops.antt =====
-- What both loops of src/ProcessPool.h return, over the state of each.
use mathlib.Core.List.{append_assoc}
use simple_http_serv.Prelude.{◌≡◌, refl, sym, ap, Run, ok, fault, ◌>>=◌, List, [], ◌++◌}
use simple_http_serv.Sys.{Action, Ending}

module _ {S : Type 0} where
  -- What is done behind `actions`.
  abbrev pub behind : List Action → Run (Ending × S × List Action) → Run (Ending × S × List Action)
  behind actions r = do (ending, s, more) ← r; ok (ending, s, actions ++ more)

  pub behind-nil : (r : Run (Ending × S × List Action)) → behind [] r ≡ r
  behind-nil (ok (ending, s, actions)) = refl
  behind-nil (fault f) = refl

  pub behind-append :
      (xs ys : List Action) (r : Run (Ending × S × List Action))
      → behind xs (behind ys r) ≡ behind (xs ++ ys) r
  behind-append xs ys (ok (ending, s, actions)) =
      ap (λ l. ok (ending, s, l)) (sym (append_assoc xs ys actions))
  behind-append xs ys (fault f) = refl
