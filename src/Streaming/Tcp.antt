-- ===== src/Streaming/Tcp.antt =====
-- The file transfer of streaming/tcp_streaming: `sentFile` and `main` of tcp_server.c, `recvFile` and
-- `run_tcp_client` of tcp_client.c. The messages that they print are left out.
pub mod Posix
pub mod Transfer
pub mod Tests
use quicsy.Prelude.{
  ℕ, zero, suc, ◌+◌, ◌-◌, ◌^◌, Bool, true, false, not, [], ◌∷◌, ◌++◌, Bytes, Option, none, some,
  ◌==◌, leb, if◌then◌else◌, take, length,
}
use quicsy.Prelude.Int.{ℤ, pos, negsuc}
use quicsy.Streaming.Outcome.{
  M, crashes, out_of_fuel, ◌>>=◌, ◌>>◌, pure, act, call, read, is_neg, eq_ℤ, ok, failure,
}
use quicsy.Streaming.Tcp.Posix.{Os}

-- MAX and the size of an `int`.
abbrev pub max_buffer : ℕ
max_buffer = 1024

abbrev pub sizeof_int : ℕ
sizeof_int = 4

-- The C string at the start of a buffer.
unfoldable pub c_string : Bytes → Bytes
c_string [] = []
c_string (b ∷ s) = let rest = c_string s in if b == 0 then [] else b ∷ rest

module _ (os : Os) where
  open os use {
    World, read_from, write_to, write_wild, access, open_read, open_write, socket, reuse_address,
    bind_port, listen, accept, connect, close, int_bytes, int_value,
  }

  -- Behind a read into the zeroed buffer: its bytes are handed on, and a count of 0 ends the loop. A
  -- count of -1 is handed on as the largest length, and the loop goes on.
  transfer_round : ℤ → M World (Unit {0}) → Bytes → ℤ → M World (Unit {0})
  transfer_round to next data_read (negsuc n) = do
    written ← call (write_wild to (2 ^ 64 - 1 - n))
    next
  transfer_round to next data_read (pos n) = do
    written ← call (write_to to (take n data_read))
    if n == 0 then pure tt else next

  -- `while (1)` of `sentFile` and of `recvFile`.
  unfoldable pub transfer_loop : ℕ → ℤ → ℤ → M World (Unit {0})
  unfolding transfer_round
  transfer_loop zero from to = λ w. out_of_fuel
  transfer_loop (suc fuel) from to = do
    got ← call (read_from from max_buffer)
    transfer_round to (transfer_loop fuel from to) got.1 got.0

  -- `if (!fd) return;` and the loop.
  transfer_opened : ℕ → ℤ → ℤ → ℤ → M World (Unit {0})
  unfolding transfer_loop
  transfer_opened fuel fd from to = if eq_ℤ fd ok then pure tt else transfer_loop fuel from to

  serve_found : ℕ → ℤ → Bytes → Bool → M World (Unit {0})
  unfolding transfer_opened
  serve_found fuel sockfd name true = pure tt
  serve_found fuel sockfd name false = do
    send_fd ← call (open_read name)
    transfer_opened fuel send_fd send_fd sockfd

  -- `exist` has the value `garbage` when it is declared.
  serve_name : ℕ → ℤ → ℤ → Bytes → M World (Unit {0})
  unfolding serve_found
  serve_name fuel garbage sockfd name = do
    found ← read (access name)
    let exist : ℤ = if is_neg found then failure else garbage
    sent ← call (write_to sockfd (int_bytes exist))
    serve_found fuel sockfd name (is_neg exist)

  -- `strcpy(file_name, buff)`: a name that fills the buffer has no NUL, and the copy runs beyond it.
  copy_name : ℕ → ℤ → ℤ → Bytes → M World (Unit {0})
  unfolding serve_name
  copy_name fuel garbage sockfd name =
      if leb max_buffer (length name) then (λ w. crashes) else serve_name fuel garbage sockfd name

  unfoldable pub sent_file : ℕ → ℤ → ℤ → M World (Unit {0})
  unfolding copy_name c_string
  sent_file fuel garbage sockfd = do
    got ← call (read_from sockfd max_buffer)
    if eq_ℤ got.0 ok then pure tt else copy_name fuel garbage sockfd (c_string got.1)

  receive_found : ℕ → ℤ → Bytes → Bool → M World (Unit {0})
  unfolding transfer_opened
  receive_found fuel sockfd outfilename true = pure tt
  receive_found fuel sockfd outfilename false = do
    recv_fd ← call (open_write outfilename)
    transfer_opened fuel recv_fd sockfd recv_fd

  -- A read that fails leaves `exist` as it is, which is `int_value` of no bytes.
  receive_answer : ℕ → ℤ → Bytes → Bool → M World (Unit {0})
  unfolding receive_found
  receive_answer fuel sockfd outfilename true = pure tt
  receive_answer fuel sockfd outfilename false = do
    got ← call (read_from sockfd sizeof_int)
    receive_found fuel sockfd outfilename (is_neg (int_value got.1))

  unfoldable pub recv_file : ℕ → ℤ → Bytes → Bytes → M World (Unit {0})
  unfolding receive_answer
  recv_file fuel sockfd infilename outfilename = do
    sent ← call (write_to sockfd (infilename ++ 0 ∷ []))
    receive_answer fuel sockfd outfilename (is_neg sent)

  serve_client : ℕ → ℤ → ℤ → ℤ → Bool → M World (Unit {0})
  unfolding sent_file
  serve_client fuel garbage sockfd connfd true = pure tt
  serve_client fuel garbage sockfd connfd false = do
    sent_file fuel garbage connfd
    act (close sockfd)

  after_listen : ℕ → ℤ → ℤ → Bool → M World (Unit {0})
  unfolding serve_client
  after_listen fuel garbage sockfd false = pure tt
  after_listen fuel garbage sockfd true = do
    connfd ← call (accept sockfd)
    serve_client fuel garbage sockfd connfd (is_neg connfd)

  after_bind : ℕ → ℤ → ℤ → Bool → M World (Unit {0})
  unfolding after_listen
  after_bind fuel garbage sockfd false = pure tt
  after_bind fuel garbage sockfd true = do
    code ← call (listen sockfd)
    after_listen fuel garbage sockfd (eq_ℤ code ok)

  after_socket : ℕ → ℤ → ℤ → Bool → M World (Unit {0})
  unfolding after_bind
  after_socket fuel garbage sockfd true = pure tt
  after_socket fuel garbage sockfd false = do
    act (reuse_address sockfd)
    code ← call (bind_port sockfd)
    after_bind fuel garbage sockfd (eq_ℤ code ok)

  -- `main` of the server. Each `exit(0)` ends it, as a return does.
  unfoldable pub tcp_server : ℕ → ℤ → M World (Unit {0})
  unfolding after_socket
  tcp_server fuel garbage = do
    sockfd ← call socket
    after_socket fuel garbage sockfd (eq_ℤ sockfd failure)

  after_connect : ℕ → ℤ → Bytes → Bytes → Bool → M World (Unit {0})
  unfolding recv_file
  after_connect fuel sockfd infilename outfilename false = pure tt
  after_connect fuel sockfd infilename outfilename true = do
    recv_file fuel sockfd infilename outfilename
    act (close sockfd)

  with_socket : ℕ → ℤ → Bytes → Bytes → Bool → M World (Unit {0})
  unfolding after_connect
  with_socket fuel sockfd infilename outfilename true = pure tt
  with_socket fuel sockfd infilename outfilename false = do
    act (reuse_address sockfd)
    code ← call (connect sockfd)
    after_connect fuel sockfd infilename outfilename (eq_ℤ code ok)

  unfoldable pub run_tcp_client : ℕ → Bytes → Bytes → M World (Unit {0})
  unfolding with_socket
  run_tcp_client fuel infilename outfilename = do
    sockfd ← call socket
    with_socket fuel sockfd infilename outfilename (eq_ℤ sockfd failure)
