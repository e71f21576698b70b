-- ===== src/Udp/Echo.antt =====
-- The data handle of test/udpechoserver.cpp: each datagram is sent back to where it came from.
use serverlib.Prelude.{
  ℕ, ◌%◌, ◌^◌, ◌<◌, ◌≡◌, refl, sym, ap, ◌∙◌, Bool, true, false, List, [], ◌∷◌, ◌++◌, append-nil,
  append_assoc, length, if◌then◌else◌, arith,
}
use serverlib.Prelude.Int.{ℤ, pos, ltb_ℤ}
use serverlib.Udp.{
  Event, on_data_received, sent, binds, set_nonblock, closed, Datagram, received, recv_failed,
}
use serverlib.Udp.Server.{UdpServer, send, read_callback}

-- `__ReadCallback` with this data handle: where the handle is told of a datagram, it calls
-- `g_pUdpServer->Send(IP, Port, pData, nLen)`.
unfoldable pub echo_callback : Bool → Datagram → UdpServer → UdpServer
echo_callback error (received ip port []) s = read_callback error (received ip port []) s
echo_callback error (received ip port (b ∷ bytes)) s =
    let told = read_callback error (received ip port (b ∷ bytes)) s in
    if error then told else send ip port (b ∷ bytes) (pos (length (b ∷ bytes))) told
echo_callback error recv_failed s = read_callback error recv_failed s

abbrev pub echo_all : List (Bool × Datagram) → UdpServer → UdpServer
echo_all [] s = s
echo_all ((error, d) ∷ datagrams) s = echo_all datagrams (echo_callback error d s)

-- An address, a port, the bytes and the length with which `sendto` is called, or which `recvfrom`
-- got from there.
abbrev pub Packet : Type 0
Packet = ℕ × ℕ × List ℕ × ℤ

-- What is sent in a log, oldest first.
abbrev pub sent_in : List Event → List Packet
sent_in [] = []
sent_in (sent fd bytes len ip port ∷ log) = sent_in log ++ (ip, port, bytes, len) ∷ []
sent_in (on_data_received handle ip port bytes ∷ log) = sent_in log
sent_in (binds fd ip port ∷ log) = sent_in log
sent_in (set_nonblock fd ∷ log) = sent_in log
sent_in (closed fd ∷ log) = sent_in log

-- What sockets are bound to in a log, oldest first.
abbrev pub bound_in : List Event → List (ℤ × ℕ × ℕ)
bound_in [] = []
bound_in (binds fd ip port ∷ log) = bound_in log ++ (fd, ip, port) ∷ []
bound_in (_ ∷ log) = bound_in log

-- The datagrams that have arrived without an error and are not empty.
abbrev pub arrived : List (Bool × Datagram) → List Packet
arrived [] = []
arrived ((error, received ip port []) ∷ datagrams) = arrived datagrams
arrived ((error, received ip port (b ∷ bytes)) ∷ datagrams) =
    (if error then [] else (ip, port, b ∷ bytes, pos (length (b ∷ bytes))) ∷ [])
    ++ arrived datagrams
arrived ((error, recv_failed) ∷ datagrams) = arrived datagrams

-- Addresses of 32 bits.
abbrev pub AllAddresses : List (Bool × Datagram) → Type 0
AllAddresses [] = Unit {0}
AllAddresses ((error, received ip port bytes) ∷ datagrams) = (ip < 2 ^ 32) × AllAddresses datagrams
AllAddresses ((error, recv_failed) ∷ datagrams) = AllAddresses datagrams

one :
    (error : Bool) (d : Datagram) (s : UdpServer)
    → ltb_ℤ (pos 0) s.socket ≡ true
    → AllAddresses ((error, d) ∷ [])
    → ((echo_callback error d s).socket ≡ s.socket)
      × (sent_in (echo_callback error d s).log ≡ sent_in s.log ++ arrived ((error, d) ∷ []))
unfolding echo_callback read_callback send
one error (received ip port []) s h a = (refl, sym (append-nil (sent_in s.log)))
one error recv_failed s h a = (refl, sym (append-nil (sent_in s.log)))
one true (received ip port (b ∷ bytes)) s h a = (refl, sym (append-nil (sent_in s.log)))
one false (received ip port (b ∷ bytes)) s h a =
    let e : ip % 2 ^ 32 ≡ ip = omega (arith, a.0) in rw h (refl, rw e refl)

arrived-cons :
    (error : Bool) (d : Datagram) (datagrams : List (Bool × Datagram))
    → arrived ((error, d) ∷ datagrams) ≡ arrived ((error, d) ∷ []) ++ arrived datagrams
arrived-cons error (received ip port []) datagrams = refl
arrived-cons error recv_failed datagrams = refl
arrived-cons true (received ip port (b ∷ bytes)) datagrams = refl
arrived-cons false (received ip port (b ∷ bytes)) datagrams = refl

AllAddresses-cons :
    (error : Bool) (d : Datagram) (datagrams : List (Bool × Datagram))
    → AllAddresses ((error, d) ∷ datagrams)
    → AllAddresses ((error, d) ∷ []) × AllAddresses datagrams
AllAddresses-cons error (received ip port bytes) datagrams h = ((h.0, tt), h.1)
AllAddresses-cons error recv_failed datagrams h = (tt, h)

-- A UDP echo server whose socket is above 0 sends each datagram that arrives without an error and
-- is not empty, once, with all its bytes and their number as the length, to the 32-bit address and
-- the port that it came from, in the order of their arrival, and nothing else.
pub echo_all-sent :
    (datagrams : List (Bool × Datagram)) (s : UdpServer)
    → ltb_ℤ (pos 0) s.socket ≡ true
    → AllAddresses datagrams
    → sent_in (echo_all datagrams s).log ≡ sent_in s.log ++ arrived datagrams
echo_all-sent [] s h a = sym (append-nil (sent_in s.log))
echo_all-sent ((error, d) ∷ datagrams) s h a =
    let (first, rest) = AllAddresses-cons error d datagrams a in
    let (socket, log) = one error d s h first in
    echo_all-sent datagrams (echo_callback error d s) (rw socket h) rest
    ∙ ap (λ (xs : List Packet). xs ++ arrived datagrams) log
    ∙ append_assoc (sent_in s.log) (arrived ((error, d) ∷ [])) (arrived datagrams)
    ∙ ap (◌++◌ (sent_in s.log)) (sym (arrived-cons error d datagrams))

one-bound :
    (error : Bool) (d : Datagram) (s : UdpServer)
    → (bound_in (echo_callback error d s).log ≡ bound_in s.log)
unfolding echo_callback read_callback send
one-bound error (received ip port []) s = refl
one-bound error recv_failed s = refl
one-bound true (received ip port (b ∷ bytes)) s = refl
one-bound false (received ip port (b ∷ bytes)) s = ground arith

-- Nor does an echo server bind its socket again.
pub echo_all-bound :
    (datagrams : List (Bool × Datagram)) (s : UdpServer)
    → bound_in (echo_all datagrams s).log ≡ bound_in s.log
echo_all-bound [] s = refl
echo_all-bound ((error, d) ∷ datagrams) s =
    echo_all-bound datagrams (echo_callback error d s) ∙ one-bound error d s
