-- ===== src/Proxy/Main/Settings.antt =====
-- The proxy's command lines that say what they set, and what is read from them.
use serverlib.Prelude.{ℕ, ◌<◌, ◌^◌, ◌≡◌, refl, arith, List, [], ◌∷◌}
use serverlib.Prelude.Int.{pos}
use serverlib.Prelude.Run.{ok}
use serverlib.Arguments.Numbers.{atoi-digits}
use serverlib.Arguments.Addresses.{HasNoColon, url, address-url, port_number-url}
use serverlib.Arguments.Loop.{read_arguments}
use serverlib.Bench.{digits}
use serverlib.Proxy.Main.{Options, set_flag, parse}

pub data Setting : Type 0 where
  concurrency_is : ℕ → Setting
  server_is target_is : List ℕ → ℕ → Setting

-- The arguments for them.
abbrev pub rendered : List Setting → List (List ℕ)
rendered [] = []
rendered (concurrency_is n ∷ settings) = (b'-' ∷ b'c' ∷ []) ∷ (digits 20 n ∷ rendered settings)
rendered (server_is host port ∷ settings) = (b'-' ∷ b's' ∷ []) ∷ (url host port ∷ rendered settings)
rendered (target_is host port ∷ settings) = (b'-' ∷ b'd' ∷ []) ∷ (url host port ∷ rendered settings)

-- What they set, the last of a kind for good.
abbrev pub applied : List Setting → Options → Options
applied [] o = o
applied (concurrency_is n ∷ settings) o = applied settings (record o { concurrency = pos n })
applied (server_is host port ∷ settings) o =
    applied settings (record o { server_ip = host; server_port = pos port })
applied (target_is host port ∷ settings) o =
    applied settings (record o { target_ip = host; target_port = pos port })

-- Numbers that an `int` can hold, and hosts that have no colon.
abbrev pub AllPlain : List Setting → Type 0
AllPlain [] = Unit {0}
AllPlain (concurrency_is n ∷ settings) = (n < 2 ^ 31) × AllPlain settings
AllPlain (server_is host port ∷ settings) = (HasNoColon host × (port < 2 ^ 31)) × AllPlain settings
AllPlain (target_is host port ∷ settings) = (HasNoColon host × (port < 2 ^ 31)) × AllPlain settings

-- The settings of any command line are read as they are meant, in any order and number.
pub parse-settings :
    (settings : List Setting) (o : Options)
    → AllPlain settings
    → parse (rendered settings) o ≡ ok (applied settings o)
unfolding read_arguments set_flag
parse-settings [] o h = refl
parse-settings (concurrency_is n ∷ settings) o h =
    rw (atoi-digits 20 n (omega (arith, h.0)))
      (parse-settings settings (record o { concurrency = pos n }) h.1)
parse-settings (server_is host port ∷ settings) o h =
    rw (address-url host port h.0.0, port_number-url host port h.0.0 (omega (arith, h.0.1)))
      (parse-settings settings (record o { server_ip = host; server_port = pos port }) h.1)
parse-settings (target_is host port ∷ settings) o h =
    rw (address-url host port h.0.0, port_number-url host port h.0.0 (omega (arith, h.0.1)))
      (parse-settings settings (record o { target_ip = host; target_port = pos port }) h.1)
