-- ===== src/Arguments/Addresses.antt =====
-- An address that is put together with a colon is taken apart again.
use serverlib.Prelude.{ℕ, ◌<◌, ◌≡◌, refl, ap, false, List, [], ◌∷◌, ◌++◌, some, ◌==◌}
use serverlib.Prelude.Int.{pos}
use serverlib.Bench.{digits}
use serverlib.Arguments.{is_flag, address, behind_colon, port_number}
use serverlib.Arguments.Numbers.{tens, atoi-digits}

abbrev pub HasNoColon : List ℕ → Type 0
HasNoColon [] = Unit {0}
HasNoColon (c ∷ s) = ((c == b':') ≡ false) × HasNoColon s

-- `ip:port`
abbrev pub url : List ℕ → ℕ → List ℕ
url host port = host ++ b':' ∷ digits 20 port

pub address-url : (host : List ℕ) (port : ℕ) → HasNoColon host → address (url host port) ≡ host
unfolding address
address-url [] port h = refl
address-url (c ∷ host) port h = rw h.0 (ap (◌∷◌ c) (address-url host port h.1))

behind_colon-append :
    (host rest : List ℕ) → HasNoColon host → behind_colon (host ++ b':' ∷ rest) ≡ some rest
unfolding behind_colon
behind_colon-append [] rest h = refl
behind_colon-append (c ∷ host) rest h = rw h.0 (behind_colon-append host rest h.1)

pub port_number-url :
    (host : List ℕ) (port : ℕ)
    → HasNoColon host
    → port < tens 20
    → port_number (url host port) ≡ pos port
unfolding port_number
port_number-url host port h small =
    rw (behind_colon-append host (digits 20 port) h, port_number) (atoi-digits 20 port small)

pub url-flag : (host : List ℕ) (port : ℕ) → is_flag host ≡ false → is_flag (url host port) ≡ false
url-flag [] port h = refl
url-flag (c ∷ host) port h = h
