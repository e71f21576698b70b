-- ===== src/Bench/Main/Settings.antt =====
-- The command lines that say what they set, and what is read from them.
use serverlib.Prelude.{ℕ, ◌<◌, ◌^◌, ◌≡◌, refl, ◌∙◌, arith, false, List, [], ◌∷◌}
use serverlib.Prelude.Int.{pos}
use serverlib.Prelude.Run.{ok}
use serverlib.Arguments.{is_flag}
use serverlib.Arguments.Numbers.{atoi-digits}
use serverlib.Arguments.Addresses.{HasNoColon, url, address-url, port_number-url, url-flag}
use serverlib.Arguments.Loop.{read_arguments, read_arguments-other}
use serverlib.Bench.{digits}
use serverlib.Bench.Main.{Options, set_flag, set_last, set_url, parse}

pub data Setting : Type 0 where
  requests_is concurrency_is : ℕ → Setting
  target_is : List ℕ → ℕ → Setting

-- The arguments for them.
abbrev pub rendered : List Setting → List (List ℕ)
rendered [] = []
rendered (requests_is n ∷ settings) = (b'-' ∷ b'n' ∷ []) ∷ (digits 20 n ∷ rendered settings)
rendered (concurrency_is n ∷ settings) = (b'-' ∷ b'c' ∷ []) ∷ (digits 20 n ∷ rendered settings)
rendered (target_is host port ∷ settings) = url host port ∷ rendered settings

-- What they set, the last of a kind for good.
abbrev pub applied : List Setting → Options → Options
applied [] o = o
applied (requests_is n ∷ settings) o = applied settings (record o { requests = pos n })
applied (concurrency_is n ∷ settings) o = applied settings (record o { concurrency = pos n })
applied (target_is host port ∷ settings) o =
    applied settings (record o { ip = host; port = pos port })

-- Numbers that an `int` can hold, and hosts that have no colon and do not look like a flag.
abbrev pub AllPlain : List Setting → Type 0
AllPlain [] = Unit {0}
AllPlain (requests_is n ∷ settings) = (n < 2 ^ 31) × AllPlain settings
AllPlain (concurrency_is n ∷ settings) = (n < 2 ^ 31) × AllPlain settings
AllPlain (target_is host port ∷ settings) =
    ((is_flag host ≡ false) × HasNoColon host × (port < 2 ^ 31)) × AllPlain settings

-- The settings of any command line are read as they are meant, in any order and number.
pub parse-rendered :
    (settings : List Setting) (o : Options)
    → AllPlain settings
    → parse (rendered settings) o ≡ ok (applied settings o)
unfolding read_arguments set_flag set_url
parse-rendered [] o h = refl
parse-rendered (requests_is n ∷ settings) o h =
    rw (atoi-digits 20 n (omega (arith, h.0)))
      (parse-rendered settings (record o { requests = pos n }) h.1)
parse-rendered (concurrency_is n ∷ settings) o h =
    rw (atoi-digits 20 n (omega (arith, h.0)))
      (parse-rendered settings (record o { concurrency = pos n }) h.1)
parse-rendered (target_is host port ∷ settings) o h =
    read_arguments-other set_flag set_last set_url (url host port) (rendered settings) o
      (url-flag host port h.0.0)
    ∙ rw (address-url host port h.0.1, port_number-url host port h.0.1 (omega (arith, h.0.2)))
        (parse-rendered settings (record o { ip = host; port = pos port }) h.1)
