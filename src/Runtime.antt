-- ===== src/Runtime.antt =====
-- What a reconciler returns to the controller runtime (sigs.k8s.io/controller-runtime).
use eventing_manager.Base.{ℕ, Bool, false, Option}
use eventing_manager.Errors.{Error}

-- `kctrl.Result`, in seconds, and the error returned beside it
pub record Result : Type 0 where
  pub requeue : Bool
  pub requeue_after : ℕ

abbrev pub Reply : Type 0
Reply = Result × Option Error

abbrev pub done : Result
done = record { requeue = false; requeue_after = 0 }
