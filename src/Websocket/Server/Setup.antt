-- ===== src/Websocket/Server/Setup.antt =====
-- source/websocket/server/Server.cpp: the constructor of the server. How the calls of boost::asio on the
-- context of TLS and on the acceptor end is an argument.
use Prim.Native.String.{String}
use zatestil.Prelude.{ℕ, Option, none, some, Attempt, ok, throw, ◌>>=◌}
use zatestil.Config.{
  Configuration, get, address, port_of, ssl_certificate, ssl_private_key, ssl_dh_params,
  ssl_password,
}
use zatestil.Websocket.Server.{Acceptor, construct}

-- What each call throws: `set_options`, `use_certificate_chain`, `use_private_key`, `use_tmp_dh`.
pub record SslEnds : Type 0 where
  pub options : Option String
  pub certificate_chain : Option String
  pub private_key : Option String
  pub tmp_dh : Option String

-- The errors of `open`, `set_option`, `bind` and `listen`.
pub record AcceptorEnds : Type 0 where
  pub open_end : Option String
  pub reuse_end : Option String
  pub bind_end : Option String
  pub listen_end : Option String

-- What `m_sslContext` was given; the password is what its callback returns.
pub record SslContext : Type 0 where
  pub password : Option String
  pub certificate_chain : String
  pub private_key : String
  pub tmp_dh : String

-- `m_endpoint`, `m_sslContext` and `m_acceptor`.
pub record Listener : Type 0 where
  pub endpoint : String × ℕ
  pub ssl_context : SslContext
  pub acceptor : Acceptor

abbrev pub done : Option String → Attempt (Unit {0})
done none = ok tt
done (some what) = throw what

-- A text of the configuration.
abbrev pub text_of : Option String → Attempt String
text_of none = throw "no getter"
text_of (some text) = ok text

unfoldable pub configure : Configuration → SslEnds → Attempt SslContext
unfolding get
configure config ends = do
  _ ← done ends.options
  chain ← text_of (get config ssl_certificate)
  _ ← done ends.certificate_chain
  key ← text_of (get config ssl_private_key)
  _ ← done ends.private_key
  dh ← text_of (get config ssl_dh_params)
  _ ← done ends.tmp_dh
  ok (record {
    password = get config ssl_password;
    certificate_chain = chain;
    private_key = key;
    tmp_dh = dh;
  })

-- `Server::Server`. `from_string` of boost::asio is a parameter.
unfoldable pub make_server :
    (String → Attempt String) → Configuration → SslEnds → AcceptorEnds → Attempt Listener
unfolding configure get port_of construct
make_server from_string config ends acceptor_ends = do
  text ← text_of (get config address)
  host ← from_string text
  number ← port_of config
  ssl ← configure config ends
  ok (record {
    endpoint = (host, number);
    ssl_context = ssl;
    acceptor =
        construct acceptor_ends.open_end acceptor_ends.reuse_end acceptor_ends.bind_end
          acceptor_ends.listen_end;
  })
