-- ===== src/Socket/Order.antt =====
-- The two operators of isocket.h, as a `std::map` uses them.
use serverlib.Prelude.{◌≡◌, ◌↔◌, ◌⊎◌, Bool, true, false, ◌&&◌, not, arith}
use serverlib.Prelude.Map.{Order}
use serverlib.Socket.{SocketClientData, lt, eq}

-- Two keys are one key to a `std::map` if neither is below the other.
unfoldable pub equiv : SocketClientData → SocketClientData → Bool
equiv a b = not (lt a b) && not (lt b a)

pub lt_irrefl : (a : SocketClientData) → lt a a ≡ false
unfolding lt
lt_irrefl a = ground arith

pub lt_trans : (a b c : SocketClientData) → lt a b ≡ true → lt b c ≡ true → lt a c ≡ true
unfolding lt
lt_trans a b c h k = ground arith

pub eq_iff : (a b : SocketClientData) → (eq a b ≡ true) ↔ (a ≡ b)
unfolding eq
eq_iff a b = ground arith

-- Two keys of which neither is below the other are exactly those that `operator==` takes for equal.
pub equiv-eq : (a b : SocketClientData) → equiv a b ≡ eq a b
unfolding equiv lt eq
equiv-eq a b = ground arith

pub lt_total : (a b : SocketClientData) → (lt a b ≡ true) ⊎ ((a ≡ b) ⊎ (lt b a ≡ true))
unfolding lt
lt_total a b = ground arith

instance abbrev pub client_order : Order SocketClientData
client_order = record { lt = lt; lt_irrefl = lt_irrefl; lt_trans = lt_trans; lt_total = lt_total }
