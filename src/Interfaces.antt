-- ===== src/Interfaces.antt =====
-- The pure virtual classes of iserver.h and iclient.h, through which the programs use the servers
-- and the clients, and the functions of iserver.cpp and iclient.cpp that create them.
use serverlib.Prelude.{ℕ, Bool, List}
use serverlib.Prelude.Int.{ℤ}
use serverlib.Prelude.Run.{Run, ok, ◌>>=◌}
use serverlib.Socket.{SocketClientData}
use serverlib.Tcp
use serverlib.Tcp.Server.{TcpServer, new_tcp_server, set_connection_timeout, close_client}
use serverlib.Tcp.Client.{TcpClient, new_tcp_client}
use serverlib.Common.Server.{CommonServer, new_common_server, with_tcp, set_thread_num}
use serverlib.Udp
use serverlib.Udp.Server.{UdpServer}
use serverlib.Udp.Client.{UdpClient}

-- `Start()` takes what `socket` and `bind` return; a void member returns the object only.
pub record ITcpServer (S : Type 0) : Type 0 where
  pub set_data_handle : ℕ → S → S
  pub start : ℕ → ℕ → ℤ → ℤ → S → S × Bool
  pub stop : S → S × Bool
  pub send : SocketClientData → List ℕ → ℤ → S → Run (S × Bool)
  pub close_client : SocketClientData → S → Run (S × Bool)
  pub set_connection_timeout : ℤ → S → S

pub record ICommonServer (S : Type 0) : Type 0 where
  pub tcp : ITcpServer S
  pub set_thread_num : ℤ → S → S

pub record IUdpServer (S : Type 0) : Type 0 where
  pub set_data_handle : ℕ → S → S
  pub start : ℕ → ℕ → ℤ → ℤ → S → S × Bool
  pub stop : S → S × Bool
  pub send : ℕ → ℕ → List ℕ → ℤ → S → S

pub record ITcpClient (S : Type 0) : Type 0 where
  pub set_data_handle : ℕ → S → S
  pub start : ℕ → ℕ → ℤ → S → S × Bool
  pub stop : S → S × Bool
  pub send : List ℕ → ℤ → S → Run (S × Bool)

pub record IUdpClient (S : Type 0) : Type 0 where
  pub set_data_handle : ℕ → S → S
  pub start : ℕ → ℕ → ℤ → S → S × Bool
  pub stop : S → S × Bool
  pub send : List ℕ → ℤ → S → S

abbrev pub tcp_server : ITcpServer TcpServer
tcp_server = record {
  set_data_handle = Tcp.Server.set_data_handle;
  start = Tcp.Server.start;
  stop = Tcp.Server.stop;
  send = Tcp.Server.post_send;
  close_client = close_client;
  set_connection_timeout = set_connection_timeout;
}

-- A member of the base class, called by one of `CCommonServer`.
abbrev on_tcp : CommonServer → TcpServer × Bool → CommonServer × Bool
on_tcp s r = (with_tcp r.0 s, r.1)

-- The members of `CCommonServer` call those of `CTcpServer`.
abbrev pub common_server : ICommonServer CommonServer
common_server = record {
  tcp = record {
    set_data_handle = λ handle s. with_tcp (Tcp.Server.set_data_handle handle s.dispatcher.tcp) s;
    start = λ ip port fd bound s. on_tcp s (Tcp.Server.start ip port fd bound s.dispatcher.tcp);
    stop = λ s. on_tcp s (Tcp.Server.stop s.dispatcher.tcp);
    send = λ client bytes len s.
        Tcp.Server.post_send client bytes len s.dispatcher.tcp >>= λ r. ok (on_tcp s r);
    close_client = λ client s. close_client client s.dispatcher.tcp >>= λ r. ok (on_tcp s r);
    set_connection_timeout =
        λ timeout s. with_tcp (set_connection_timeout timeout s.dispatcher.tcp) s;
  };
  set_thread_num = λ n s. record s { dispatcher = set_thread_num n s.dispatcher };
}

abbrev pub udp_server : IUdpServer UdpServer
udp_server = record {
  set_data_handle = Udp.Server.set_data_handle;
  start = Udp.Server.start;
  stop = Udp.Server.stop;
  send = Udp.Server.send;
}

abbrev pub tcp_client : ITcpClient TcpClient
tcp_client = record {
  set_data_handle = Tcp.Client.set_data_handle;
  start = Tcp.Client.start;
  stop = Tcp.Client.stop;
  send = Tcp.Client.post_send;
}

abbrev pub udp_client : IUdpClient UdpClient
udp_client = record {
  set_data_handle = Udp.Client.set_data_handle;
  start = Udp.Client.start;
  stop = Udp.Client.stop;
  send = Udp.Client.send;
}

-- An object behind its interface.
pub record Instance (Interface : Type 0 → Type 0) : Type 1 where
  pub state : Type 0
  pub operations : Interface state
  pub object : state

abbrev pub create_tcp_server_instance : Instance ITcpServer
create_tcp_server_instance = record {
  state = TcpServer;
  operations = tcp_server;
  object = new_tcp_server;
}

-- `garbage` is what the memory holds where the constructor leaves `m_Socket`.
abbrev pub create_udp_server_instance : ℤ → Instance IUdpServer
create_udp_server_instance garbage = record {
  state = UdpServer;
  operations = udp_server;
  object = Udp.Server.new garbage;
}

abbrev pub create_common_server_instance : Instance ICommonServer
create_common_server_instance = record {
  state = CommonServer;
  operations = common_server;
  object = new_common_server;
}

abbrev pub create_tcp_client_instance : Instance ITcpClient
create_tcp_client_instance = record {
  state = TcpClient;
  operations = tcp_client;
  object = new_tcp_client;
}

abbrev pub create_udp_client_instance : ℤ → Instance IUdpClient
create_udp_client_instance garbage = record {
  state = UdpClient;
  operations = udp_client;
  object = Udp.Client.new garbage;
}
