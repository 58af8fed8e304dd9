-- ===== src/Errors.antt =====
-- Go errors (pkg/errors/errors.go): sentinels, wrapping by `%w`, `errors.Join`, and `ArgumentError`.
use eventing_manager.Base.{
  ◌≡◌, String, ◌<>◌, Bool, true, false, ◌||◌, arith, ◌==◌, string_eq, Option, none, some,
}

-- A sentinel stands for the value of a package variable; its text is its identity.
pub data Error : Type 0 where
  sentinel : String → Error
  -- `fmt.Errorf("%w: %w", a, b)`
  wrap : Error → Error → Error
  -- `fmt.Errorf` with one `%w` for `a` and further text
  note : Error → String → Error
  -- `errors.Join(a, b)` of two errors
  both : Error → Error → Error
  -- `ArgumentError`: the format is its identity
  argument : String → String → Error
  -- `reconcile.TerminalError`
  terminal : Error → Error

-- `errors.Is(err, target)`, for a sentinel or an `ArgumentError` as the target.
unfoldable pub is_error : Error → Error → Bool
is_error (sentinel a) (sentinel b) = a == b
is_error (argument f a) (argument g b) = f == g
is_error (wrap a b) t = is_error a t || is_error b t
is_error (note a s) t = is_error a t
is_error (both a b) t = is_error a t || is_error b t
is_error (terminal a) t = is_error a t
is_error _ _ = false

unfoldable pub make_error : Error → Error → Error
make_error actual underlying = wrap actual underlying

unfoldable pub make_subscription_error : Error → Error → String → Error
make_subscription_error actual underlying subscription =
    note (wrap actual underlying) (", subscription: " <> subscription)

unfoldable pub make_consumer_error : Error → Error → String → Error
make_consumer_error actual underlying consumer =
    note (wrap actual underlying) (", consumer: " <> consumer)

-- `(*ArgumentError).WithArg`; an error of any other kind has no such method.
unfoldable pub with_arg : String → String → Error
with_arg format arg = argument format arg

-- `errors.Join(err, nil)` drops the nil.
unfoldable pub join_errors : Error → Option Error → Error
join_errors e none = e
join_errors e (some f) = both e f

-- What `errors.Join` returns still is what its first error is.
pub is_error-join_errors :
    (e t : Error) (f : Option Error) → is_error e t ≡ true → is_error (join_errors e f) t ≡ true
unfolding join_errors is_error
is_error-join_errors e t none h = h
is_error-join_errors e t (some f) h = ground arith
