-- ===== src/Proxy.antt =====
-- The proxies of test/, tcpproxy.cpp and udpproxy.cpp: each packet is passed on to a target server
-- with a header that names its sender, and the target's answers are passed back to whom they name.
pub mod Wire
pub mod Header
pub mod Tcp
pub mod TcpSides
pub mod TcpTrip
pub mod TcpRound
pub mod Udp
pub mod Main
pub mod UdpMain
pub mod UdpTrip
