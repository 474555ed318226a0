-- ===== src/Errors.antt =====
-- Go's errors (internal/utils/errors.go) and results of functions that may fail.
use cluster_api_provider_inc.Prelude.{String, ◌≡◌, refl, Bool, true, false}
use cluster_api_provider_inc.Text.{◌<>◌}

-- `fmt.Errorf` without %w; with one %w between two texts; `utils.TerminalError`.
pub data GoError : Type 0 where
  errorf : String → GoError
  wrapf : String → GoError → String → GoError
  terminal_error : GoError → GoError

-- err.Error()
unfoldable pub error_text : GoError → String
error_text (errorf s) = s
error_text (wrapf before e after) = before <> error_text e <> after
error_text (terminal_error e) = error_text e

-- `errors.As` goes down the chain of wrapped errors, and stops at a terminal one.
unfoldable pub is_terminal_error : GoError → Bool
is_terminal_error (errorf s) = false
is_terminal_error (wrapf before e after) = is_terminal_error e
is_terminal_error (terminal_error e) = true

-- What a Go function with an error among its results returns.
pub data Result {ℓ} (A : Type ℓ) : Type ℓ where
  ok : A → Result A
  err : GoError → Result A

-- err == nil
abbrev pub succeeds {ℓ} : {A : Type ℓ} → Result A → Bool
succeeds (ok a) = true
succeeds (err e) = false

infixl 5 ◌>>=◌ ◌>>◌
-- if err != nil { return nil, err }
abbrev pub ◌>>=◌ {ℓ κ} : {S : Type ℓ} {T : Type κ} → Result S → (S → Result T) → Result T
err e >>= next = err e
ok value >>= next = next value

-- return nil, fmt.Errorf("...: %w", err)
abbrev pub wrap {ℓ} : {A : Type ℓ} → String → Result A → Result A
wrap before (ok a) = ok a
wrap before (err e) = err (wrapf before e "")

-- return nil, utils.TerminalError(fmt.Errorf("...: %w", err))
abbrev pub wrap_terminal {ℓ} : {A : Type ℓ} → String → Result A → Result A
wrap_terminal before (ok a) = ok a
wrap_terminal before (err e) = err (terminal_error (wrapf before e ""))

abbrev pub ◌>>◌ {ℓ} : {T : Type ℓ} → Result (Unit {0}) → Result T → Result T
check >> result = check >>= λ u. result

pub Terminal-wrapf :
    (before : String) (e : GoError) (after : String)
    → is_terminal_error (wrapf before e after) ≡ is_terminal_error e
unfolding is_terminal_error
Terminal-wrapf before e after = refl

-- The two steps of a sequence that succeeds.
pub >>=-eq-ok {ℓ κ} :
    {S : Type ℓ} {T : Type κ} (first : Result S) (next : S → Result T) {t : T}
    → (first >>= next) ≡ ok t
    → (s : S) × (first ≡ ok s) × (next s ≡ ok t)
>>=-eq-ok (err e) next h = cc
>>=-eq-ok (ok s) next h = (s, refl, h)

pub wrap-ok {ℓ} :
    {A : Type ℓ} (before : String) (r : Result A) (a : A) → wrap before r ≡ ok a → r ≡ ok a
wrap-ok before (ok b) a e = e
wrap-ok before (err x) a e = cc

pub wrap-err {ℓ} :
    {A : Type ℓ} (before : String) (r : Result A) (e : GoError)
    → wrap before r ≡ err e
    → succeeds r ≡ false
wrap-err before (ok a) e h = cc
wrap-err before (err x) e h = refl
